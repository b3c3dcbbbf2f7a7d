-- ===== src/TaskQueue/Api.antt =====
-- What a client asks of a bounded queue, and what it sees of each call.
use mycode_c.Base.{Option}

-- 0, or a negative number.
pub data Status : Type 0 where
  ok err : Status

pub data Op {ℓ} (A : Type ℓ) : Type ℓ where
  put : A → Op A
  get : Op A

abbrev pub Reply {ℓ} : Type ℓ → Type ℓ
Reply A = Status × Option A
