-- ===== src/Store/Actions.antt =====
-- The operations of the repository adapters on a session, with exceptions. Each call of outside
-- code may fail; a transaction's writes are seen by the session and kept by a commit.
use laa_inquests_api.Prelude.{
  suc, Bool, Option, none, some, List, [], ◌∷◌, Result, ok, err, if◌then◌else◌,
}
use laa_inquests_api.Exceptions.{Exception, unexpected}
use laa_inquests_api.Store.{Db, Session, Env, Email}

abbrev pub Action : Type 0 → Type 0
Action A = Env → Session → Result Exception A × Session

module _ {A : Type 0} where
  unfoldable pub pure : A → Action A
  pure a env s = (ok a, s)

  unfoldable pub raise : Exception → Action A
  raise e env s = (err e, s)

  -- A value of the open transaction's data.
  unfoldable pub gets : (Db → A) → Action A
  gets f env s = (ok (f s.working), s)

-- `if test: raise error`
unfoldable pub guard : Bool → Exception → Action (Unit {0})
guard test e env s = (if test then err e else ok tt, s)

unfoldable pub or_raise : {A : Type 0} → Option A → Exception → Action A
unfolding pure raise
or_raise none e = raise e
or_raise (some a) e = pure a

-- A call of outside code: it raises, or returns and has its effect.
unfoldable pub call : (Session → Session) → Action (Unit {0})
call effect env s =
    let t : Session = record s { calls = suc s.calls } in
    if env.fails s.calls then (err unexpected, t) else (ok tt, effect t)

abbrev pub write : (Db → Db) → Session → Session
write f s = record s { working = f s.working }

-- An assignment to an object of the session, which the next flush writes.
unfoldable pub modify : (Db → Db) → Action (Unit {0})
modify f env s = (ok tt, write f s)

-- A call of the notification service.
unfoldable pub send : Email → Action (Unit {0})
unfolding call
send email = call (λ (s : Session). record s { sent = email ∷ s.sent })

-- `session.commit()`
unfoldable pub commit : Action (Unit {0})
unfolding call
commit = call (λ (s : Session). record s { committed = s.working })

-- `session.rollback()`, which does not fail.
abbrev pub rollback : Session → Session
rollback s = record s { working = s.committed }

infixl 5 ◌>>=◌ ◌>>◌
unfoldable pub ◌>>=◌ : {A B : Type 0} → Action A → (A → Action B) → Action B
unfolding pure raise gets guard or_raise call modify send commit
◌>>=◌ m f env s = let (r, s') = m env s in elim r [ ok a ↦ f a env s' | err e ↦ (err e, s') ]

abbrev pub ◌>>◌ : {B : Type 0} → Action (Unit {0}) → Action B → Action B
m >> k = m >>= λ _. k

-- `try: m except Exception: rollback; raise`
unfoldable pub or_rollback : {A : Type 0} → Action A → Action A
or_rollback m env s =
    let (r, s') = m env s in elim r [ ok a ↦ (ok a, s') | err e ↦ (err e, rollback s') ]

-- `for x in xs: f(x)`
unfoldable pub for_each : {A : Type 0} → (A → Action (Unit {0})) → List A → Action (Unit {0})
for_each f [] env s = (ok tt, s)
for_each f (x ∷ xs) env s =
    let (r, s') = f x env s in elim r [ ok _ ↦ for_each f xs env s' | err e ↦ (err e, s') ]

-- Reading an object that a commit or a rollback has expired: the database gives its columns again.
abbrev pub reload : Action (Unit {0})
reload = call (λ (s : Session). s)

abbrev pub roll_back : Action (Unit {0})
roll_back env s = (ok tt, rollback s)

-- `try: m except Exception: handler`, which gives `x` when `m` does not raise
abbrev pub or_else : {A : Type 0} → Action (Unit {0}) → A → Action A → Action A
or_else m x handler env s =
    let (r, s') = m env s in elim r [ ok _ ↦ (ok x, s') | err _ ↦ handler env s' ]
