-- ===== src/Lwip/IpAddr.antt =====
-- src/lwip/ipaddr.rs: a pointer to an address of lwIP that is not null. Nothing of the program uses it.
use derusting.Prelude.{ℕ, Option, none, some}
use derusting.Prelude.Result.{Result, ok, err}

pub record IpAddr : Type 0 where
  pub inner : ℕ

pub data Error : Type 0 where
  null : Error

-- `try_from`, of a pointer that is `none` where it is null.
unfoldable pub try_from : Option ℕ → Result IpAddr Error
try_from none = err null
try_from (some p) = ok (record { inner = p })

-- `addr`, from what stands in memory; `none` is a read where no address is.
unfoldable pub addr : (ℕ → Option ℕ) → IpAddr → Option ℕ
addr mem a = mem a.inner
