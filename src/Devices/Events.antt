-- ===== src/Devices/Events.antt =====
-- What may happen to a manager: the operations of its threads, part by part between the points where
-- they hold its lock, and other processes that write the ledger.
use embodi_run.Base.{ℕ, Bool, false, ◌||◌, Option, none, some, List, [], ◌∷◌, String, if◌then◌else◌}
use embodi_run.Base.Dict.{lookup}
use embodi_run.Devices.Types.{
  Identity, identity_eq, identity_beq, Entry, ClosingEnd, closer_pending, Answer, done,
}
use embodi_run.Devices.Ledger.{Ledger}
use embodi_run.Devices.Manager.{Manager, mark_uncertain, clear_uncertainty}
use embodi_run.Devices.Acquire.{Request, acquire}
use embodi_run.Devices.Close.{release, begin_close, end_closer, settle_close, close}

pub data Event : Type 0 where
  acquired : Request → Event
  released : Identity → ℕ → Event
  close_begun : Identity → ℕ → Event
  closer_ended : Identity → Answer → Event
  close_settled : Identity → Event
  shut : Event
  marked : Identity → String → Event
  cleared : Identity → Event
  rewritten : Ledger → Event

abbrev pub end_if_pending : ClosingEnd → Identity → Answer → Manager → Manager
end_if_pending closer_pending i answer m = end_closer i answer m
end_if_pending _ i answer m = m

abbrev pub end_if_closing : Option Entry → Identity → Answer → Manager → Manager
end_if_closing none i answer m = m
end_if_closing (some e) i answer m =
    if e.closing then end_if_pending e.closing_end i answer m else m

-- A closer answers once, for a record that is being closed.
unfoldable pub happen : Event → Manager → Manager
happen (acquired r) m = (acquire r m).0
happen (released i token) m = (release i token m).0
happen (close_begun i serial) m = (begin_close i serial m).0
happen (closer_ended i answer) m = end_if_closing (lookup i m.records) i answer m
happen (close_settled i) m = (settle_close i m).0
happen shut m = (close m).0
happen (marked i reason) m = (mark_uncertain i reason m).0
happen (cleared i) m = (clear_uncertainty i m).0
happen (rewritten l) m = record m { ledger = l }

abbrev pub run : List Event → Manager → Manager
run [] m = m
run (e ∷ es) m = run es (happen e m)

-- Is the closer of this identity's record done without an error in these events?
abbrev pub is_end : Identity → Event → Bool
is_end i (closer_ended j done) = identity_beq j i
is_end i _ = false

abbrev pub closes : Identity → List Event → Bool
closes i [] = false
closes i (e ∷ es) = is_end i e || closes i es
