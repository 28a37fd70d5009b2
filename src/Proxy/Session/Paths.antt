-- ===== src/Proxy/Session/Paths.antt =====
-- internal/proxy/session.go: the paths that clients get are new.
use secrets_dispatcher.Prelude.{
  ℕ, ◌+◌, ◌%◌, ◌≤◌, ◌<◌, String, ◌≡◌, ◌≢◌, refl, sym, ap, ◌∙◌, Option, none, some, List, [], ◌∷◌,
  ◌==◌, eq_iff, Bool-cases, inl, inr, arith, length,
}
use secrets_dispatcher.Prelude.Dict.{get, erase, get-insert, get-erase}
use text.Mathlib.TextLemmas.{append_cancel_left, append-nil}
use secrets_dispatcher.Text.Decimal.{decimal, decimal_inj}
use secrets_dispatcher.Dhcrypto.{Ciphers, Session}
use secrets_dispatcher.Proxy.Upstream.{Variant, Reply, failed, answered, Result, ok, err}
use secrets_dispatcher.Proxy.Session.{
  SessionManager, SessionEntry, session_path, add_session, u64, create_session, close_session,
  close_all, new_session_manager, create_negotiated, close_entry, negotiate,
}

session_path_inj : (m n : ℕ) → session_path m ≡ session_path n → m ≡ n
session_path_inj m n e = decimal_inj m n (
    sym (append-nil (decimal m))
    ∙ append_cancel_left "/org/freedesktop/secrets/session/" _ _ e
    ∙ append-nil (decimal n))

-- No path with a number above the counter is in use.
abbrev pub Unused : SessionManager → Type 0
Unused m = (n : ℕ) → m.counter < n → n < u64 → get (session_path n) m.sessions ≡ none

-- A call of the manager.
pub data Use : Type 0 where
  create : Ciphers → Option ℕ → Reply (Variant × String) → String → Variant → Use
  close : Reply (Unit {0}) → String → Use
  close_all_sessions : Use

unfoldable pub after : SessionManager → Use → SessionManager
unfolding create_session close_session close_all
after m (create c random reply algorithm input) =
    (create_session c random reply m algorithm input).0
after m (close reply remote) = (close_session reply m remote).0
after m close_all_sessions = (close_all m).0

unfoldable pub after_all : SessionManager → List Use → SessionManager
unfolding after
after_all m [] = m
after_all m (u ∷ us) = after_all (after m u) us

-- What holds of the manager, and how far its counter goes in one step.
record Grows (m n : SessionManager) : Type 0 where
  least : m.counter ≤ n.counter
  most : n.counter ≤ m.counter + 1
  unused : Unused n

module _ (m : SessionManager) (room : m.counter + 1 < u64) (unused : Unused m) where
  Grows-refl : Grows m m
  Grows-refl = record { least = omega arith; most = omega arith; unused = unused }

  add-Grows : (local : String) (cipher : Option Session) → Grows m (add_session m local cipher).0
  unfolding add_session
  add-Grows local cipher = record {
    least = omega arith;
    most = omega arith;
    unused = λ n above below.
        elim (Bool-cases (session_path ((m.counter + 1) % u64) == session_path n)) [
          | inl e ↦
              absurd
                (let same = session_path_inj _ n ((eq_iff _ (session_path n)).0 e) in omega arith)
          | inr e ↦
              get-insert (session_path ((m.counter + 1) % u64)) (session_path n) _ m.sessions
              ∙ rw e (unused n (omega arith) below)
        ];
  }

  create-Grows :
      (c : Ciphers) (random : Option ℕ) (reply : Reply (Variant × String)) (algorithm : String)
      (input : Variant)
      → Grows m (create_session c random reply m algorithm input).0
  unfolding create_session
  create-Grows c random reply algorithm input = go (negotiate c random algorithm input) reply
    where
      go :
          (r : Result (Variant × Option Session)) (reply : Reply (Variant × String))
          → Grows m (create_negotiated r reply m).0
      go (err e) reply = Grows-refl
      go (ok (output, cipher)) (failed text) = Grows-refl
      go (ok (output, cipher)) (answered (upstream, local)) = add-Grows local cipher

  erase-Grows : (remote : String) → Grows m (record m { sessions = erase remote m.sessions })
  erase-Grows remote = record {
    least = omega arith;
    most = omega arith;
    unused =
        λ n above below. ground (arith, get-erase remote (session_path n) m.sessions, unused n);
  }

  close-Grows :
      (o : Option SessionEntry) (reply : Reply (Unit {0})) (remote : String)
      → Grows m (close_entry o reply m remote).0
  close-Grows none reply remote = Grows-refl
  close-Grows (some entry) reply remote = erase-Grows remote

  after-Grows : (u : Use) → Grows m (after m u)
  unfolding after close_session close_all
  after-Grows (create c random reply algorithm input) = create-Grows c random reply algorithm input
  after-Grows (close reply remote) = close-Grows (get remote m.sessions) reply remote
  after-Grows close_all_sessions = record {
    least = omega arith;
    most = omega arith;
    unused = λ n above below. unfold get in refl;
  }

record Bounded (m n : SessionManager) (steps : ℕ) : Type 0 where
  least : m.counter ≤ n.counter
  most : n.counter ≤ m.counter + steps
  unused : Unused n

after_all-Bounded :
    (m : SessionManager) (us : List Use)
    → m.counter + length us < u64
    → Unused m
    → Bounded m (after_all m us) (length us)
unfolding after_all
after_all-Bounded m [] room unused = record {
  least = omega arith;
  most = omega arith;
  unused = unused;
}
after_all-Bounded m (u ∷ us) room unused =
    let first = after-Grows m (omega arith) unused u in
    let most = first.most in
    let rest = after_all-Bounded (after m u) us (omega arith) first.unused in
    let least = first.least in
    let later = rest.least in
    let bound = rest.most in
    record { least = omega arith; most = omega arith; unused = rest.unused }

-- The path that a successful call gives, and the manager that it leaves.
created :
    (c : Ciphers) (random : Option ℕ) (reply : Reply (Variant × String)) (m : SessionManager)
    (algorithm : String) (input output : Variant) (path : String)
    → (create_session c random reply m algorithm input).2 ≡ ok (output, path)
    → (path ≡ session_path ((m.counter + 1) % u64))
      × ((create_session c random reply m algorithm input).0.counter ≡ (m.counter + 1) % u64)
unfolding create_session add_session
created c random reply m algorithm input output path e =
    go (negotiate c random algorithm input) reply e
  where
    go :
        (r : Result (Variant × Option Session)) (reply : Reply (Variant × String))
        → (create_negotiated r reply m).2 ≡ ok (output, path)
        → (path ≡ session_path ((m.counter + 1) % u64))
          × ((create_negotiated r reply m).0.counter ≡ (m.counter + 1) % u64)
    go (err e) reply h = cc
    go (ok (output, cipher)) (failed text) h = cc
    go (ok (output, cipher)) (answered (upstream, local)) h = ground (arith, h)

new-Unused : Unused new_session_manager
unfolding get
new-Unused n above below = refl

-- Two sessions that a manager opens have different paths, whatever it opened and closed before and
-- between them, and the second path is not in use when it is given: a client never gets the path of
-- another client's session, a closed one included, while fewer than 2^64 calls are made.
pub session_paths_distinct :
    (us vs : List Use) (c d : Ciphers) (random random' : Option ℕ)
    (reply reply' : Reply (Variant × String)) (algorithm algorithm' : String)
    (input input' output output' : Variant) (path path' : String)
    → length us + length vs + 2 < u64
    → (create_session c random reply (after_all new_session_manager us) algorithm input).2
      ≡ ok (output, path)
    → (create_session d random' reply'
        (after_all
          (create_session c random reply (after_all new_session_manager us) algorithm input).0
          vs)
        algorithm'
        input').2
      ≡ ok (output', path')
    → (path ≢ path')
      × (get path'
            (after_all
              (create_session c random reply (after_all new_session_manager us) algorithm input).0
              vs).sessions
          ≡ none)
session_paths_distinct us vs c d random random' reply reply' algorithm algorithm' input input'
      output output' path path' room first second =
    let m = after_all new_session_manager us in
    let before = after_all-Bounded new_session_manager us (omega arith) new-Unused in
    let most = before.most in
    let grown = create-Grows m (omega arith) before.unused c random reply algorithm input in
    let n = (create_session c random reply m algorithm input).0 in
    let made = created c random reply m algorithm input output path first in
    let counter = made.1 in
    let between = after_all-Bounded n vs (omega arith) grown.unused in
    let least = between.least in
    let limit = between.most in
    let again = created d random' reply' (after_all n vs) algorithm' input' output' path' second in
    let number : ((after_all n vs).counter + 1) % u64 ≡ (after_all n vs).counter + 1 =
      omega arith in
    (
      λ same. absurd (let e = session_path_inj _ _ (sym made.0 ∙ same ∙ again.0) in omega arith),
      ap (λ p. get p (after_all n vs).sessions) again.0
          ∙ between.unused _ (omega arith) (omega arith),
    )
