-- ===== src/Approval/Manager/Safe.antt =====
-- What holds after any sequence of calls.
use secrets_dispatcher.Prelude.{◌≤◌, String, ◌≡◌, refl, false, some, length, arith}
use secrets_dispatcher.Approval.Types.{Request}
use secrets_dispatcher.Approval.Manager.{Manager, Config, new_manager, get_pending}
use secrets_dispatcher.Approval.Manager.Invariant.{
  Inv, Inv-Quiet, Inv-notify, Inv-log, Inv-allocate, Inv-enter, Inv-drop, Inv-close,
  get_pending_open,
}
use secrets_dispatcher.Approval.Manager.Steps.{Op, step, IsFresh, Reach}
use secrets_dispatcher.Approval.Manager.Closed.{Closed, step-Keeps, Reach-Keeps}

abbrev pub Inv-Closed : (c : Config) → Closed (Inv c)
Inv-Closed c = record {
  quiet = Inv-Quiet;
  notifies = Inv-notify;
  logs = Inv-log;
  allocates = Inv-allocate;
  enters = Inv-enter;
  drops = Inv-drop;
  closes = λ m v id r e r' same. Inv-close m v r';
}

-- Every call that draws a fresh UUID keeps the configuration, the history within its limit and every
-- pending request's channel open.
pub step-Inv : (c : Config) (m : Manager) (op : Op) → Inv c m → IsFresh m op → Inv c (step m op)
step-Inv c m op v fresh = step-Keeps (Inv-Closed c) m op v fresh

-- The invariant holds of a new manager, and so after any calls.
reach-Inv :
    (cfg : Config) (m : Manager)
    → Reach (new_manager cfg) m
    → Inv (record cfg { disabled = false }) m
reach-Inv cfg m reach =
    Reach-Keeps (Inv-Closed _) (record { kept = refl; bounded = omega arith; open_at = λ id h. cc })
      reach

-- Whatever calls a new manager gets, in whatever order, additions to the history among them, if those
-- that draw a UUID draw a fresh one, its history is within the configured limit, one that is not negative.
pub history_bounded :
    (cfg : Config) (m : Manager) → Reach (new_manager cfg) m → length m.history ≤ cfg.history_max
history_bounded cfg m reach = let v = reach-Inv cfg m reach in rw v.kept at v.bounded

-- Whatever calls a new manager gets, if those that draw a UUID draw a fresh one, a request that is
-- found pending has the ID asked for, and its channel is open, so that closing it cannot panic.
pub pending_open :
    (cfg : Config) (m : Manager) (id : String) (r : Request)
    → Reach (new_manager cfg) m
    → get_pending m id ≡ some r
    → (r.id ≡ id) × (r.is_done ≡ false)
pending_open cfg m id r reach h = get_pending_open m (reach-Inv cfg m reach) id r h
