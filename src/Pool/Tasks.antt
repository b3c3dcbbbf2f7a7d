-- ===== src/Pool/Tasks.antt =====
-- pthread_pool/pool.c: the way of the tasks through the pool.
use mycode_c.Pool.{Pool}
