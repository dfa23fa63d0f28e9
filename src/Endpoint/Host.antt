-- ===== src/Endpoint/Host.antt =====
-- `HostContext` of endpoint/mod.rs: what an endpoint asks of the program around it. The calls are
-- kept in order, and with them the number of random bits drawn so far.
use redpine_rs.Common.{ℕ, List, [], ◌∷◌, ◌++◌}

pub data Call : Type 0 where
  send_frame : List ℕ → Call
  set_rto_timer : ℕ → Call
  unset_rto_timer on_connect on_disconnect on_timeout : Call
  on_receive : List ℕ → Call

pub record Host : Type 0 where
  pub calls : List Call
  pub draws : ℕ

abbrev pub call : Call → Host → Host
call c host = record host { calls = host.calls ++ c ∷ [] }
