-- ===== src/Connection.antt =====
-- What the program's Redis client makes of a command: it is answered, it never reaches the server, or
-- it runs there and the answer is lost.
use moblog_cloud.Prelude.{Error, Result, err}

pub data Connection : Type 0 where
  answered : Connection
  refused lost : Error → Connection

-- The outcome, and the server's state, of a command that would run like this from this state.
abbrev pub over {ℓ κ} : {A : Type ℓ} {S : Type κ} → Connection → Result A × S → S → Result A × S
over answered ran before = ran
over (refused e) ran before = (err e, before)
over (lost e) ran before = (err e, ran.1)
