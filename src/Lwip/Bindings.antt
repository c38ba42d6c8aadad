-- ===== src/Lwip/Bindings.antt =====
-- `err_t` of src/lwip/bindings.rs, and pointers to lwIP's control blocks as numbers.
use derusting.Prelude.{ℕ, Bool, true, false}

pub data ErrT : Type 0 where
  ok mem buf timeout rte in_progress val would_block use_ already is_conn conn if_ abrt rst clsd
        arg :
      ErrT

abbrev pub Pcb : Type 0
Pcb = ℕ

-- `err == err_t::Ok`
abbrev pub is_ok : ErrT → Bool
is_ok ok = true
is_ok e = false
