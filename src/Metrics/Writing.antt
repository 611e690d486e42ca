-- ===== src/Metrics/Writing.antt =====
-- What a call of deploy/data/backup-metrics.mjs tells, and what writing to the response does.
use mathlib.Core.Option.{or_else}
use cartyx_infrastructure.Base.{ℕ, Text, text, ◌∷◌, ◌++◌, none, some, ◌≡◌, refl, ap}
use cartyx_infrastructure.Script.{Log, Event, throw, Settled, resolved, rejected, called}
use cartyx_infrastructure.Script.Post.{Post, returned, stopped}
use cartyx_infrastructure.Script.Discipline.{Did, earlier}
use cartyx_infrastructure.Metrics.{Request, Answer, Response, State, write_head, end_with}

-- A call was rejected.
abbrev pub HasLost : Log Answer → Type 0
HasLost log =
    (q : Request) × (m : Text) × (later : Log Answer) × (before : Log Answer) × (log
      ≡ later ++ (called q (rejected m) ∷ before))

HasLost-later : (e : Event Answer) (log : Log Answer) → HasLost log → HasLost (e ∷ log)
HasLost-later e log (q, m, later, before, same) = (q, m, e ∷ later, before, ap (λ l. e ∷ l) same)

-- A call was answered so.
abbrev pub Told : (q : Request) → Settled (Answer q) → Log Answer → Type 0
Told q (resolved a) log = Did q a log
Told q (rejected m) log = HasLost log

pub Told-later :
    (q : Request) (r : Settled (Answer q)) (e : Event Answer) (log : Log Answer)
    → Told q r log
    → Told q r (e ∷ log)
Told-later q (resolved a) e log d = earlier d
Told-later q (rejected m) e log d = HasLost-later e log d

-- A response with a status and a body.
abbrev pub reply : ℕ → Text → Response
reply status body = record { head = some status; body = some body }

abbrev pub silent : Response
silent = record { head = none; body = none }

-- The status went out, and nothing else.
abbrev pub headed : ℕ → Response
headed status = record { head = some status; body = none }

pub head-Post :
    (status : ℕ) (w : State)
    → w.vars ≡ silent
    → Post (λ _ w'. (w'.log ≡ w.log) × (w'.vars ≡ headed status)) (λ _ _. ⊥) (write_head status w)
unfolding write_head
head-Post status w e =
    let missing : w.vars.head ≡ none = ap (λ (v : Response). v.head) e in
    rw missing (returned (refl, ap (λ (v : Response). record v { head = some status }) e))

-- A status is not written twice.
pub twice-Post :
    (status sent : ℕ) (w : State)
    → w.vars ≡ headed sent
    → Post
        (λ _ _. ⊥)
        (λ h w'.
          (h ≡ throw (text "Cannot write headers after they are sent to the client")) × (w' ≡ w))
        (write_head status w)
unfolding write_head
twice-Post status sent w e =
    let there : w.vars.head ≡ some sent = ap (λ (v : Response). v.head) e in
    rw there (stopped (refl, refl))

pub end-Post :
    (status : ℕ) (body : Text) (w : State)
    → w.vars ≡ headed status
    → Post (λ _ w'. (w'.log ≡ w.log) × (w'.vars ≡ reply status body)) (λ _ _. ⊥) (end_with body w)
unfolding end_with or_else
end-Post status body w e =
    returned
      (refl, ap (λ (v : Response). record { head = or_else v.head (some 200); body = some body }) e)
