-- ===== src/Crypto/Locks/Progress.antt =====
-- Threads that call the functions of the crypto module at once, and what they wait for.
use merabriar.Prelude.{
  ◌≡◌, ◌⊎◌, inl, inr, refl, sym, subst, Bool, true, false, Bool-cases, List, [], ◌∷◌, ◌++◌, map,
  All,
}
use merabriar.Crypto.Locks.{
  Lock, keys_lock, sessions_lock, Mode, Action, acquire, release, Route, message, message_error,
  opening, opening_error, looking, generating, publishing, get_session_mut_locks,
  update_session_locks, message_locks, init_session_locks, init_session_error_locks,
  has_session_locks, generate_identity_keys_locks, get_public_key_bundle_locks, Thread, start,
  compatible, MayDo, holding, Step, moves, Reach, here, next,
}

abbrev Hold : Type 0
Hold = Lock × Mode

abbrev holds_sessions : List Hold → Bool
holds_sessions [] = false
holds_sessions ((keys_lock, m) ∷ held) = holds_sessions held
holds_sessions ((sessions_lock, m) ∷ held) = true

-- The discipline of the locks: the keys are taken with no guard held, the sessions with no guard of the sessions
-- held, and at the end no guard is held.
abbrev Fits : List Hold → List Action → Type 0
Fits [] [] = Unit
Fits (h ∷ held) [] = ⊥
Fits held (release ∷ todo) = Fits [] todo
Fits [] (acquire keys_lock m ∷ todo) = Fits ((keys_lock, m) ∷ []) todo
Fits (h ∷ held) (acquire keys_lock m ∷ todo) = ⊥
Fits held (acquire sessions_lock m ∷ todo) =
    (holds_sessions held ≡ false) × Fits ((sessions_lock, m) ∷ held) todo

abbrev IsDisciplined : Thread → Type 0
IsDisciplined t = Fits t.held t.todo

start-IsDisciplined : (route : Route) → IsDisciplined (start route)
unfolding message_locks get_session_mut_locks update_session_locks init_session_locks
    init_session_error_locks has_session_locks generate_identity_keys_locks
    get_public_key_bundle_locks
start-IsDisciplined message = (refl, (refl, tt))
start-IsDisciplined message_error = (refl, tt)
start-IsDisciplined opening = (refl, tt)
start-IsDisciplined opening_error = tt
start-IsDisciplined looking = (refl, tt)
start-IsDisciplined generating = tt
start-IsDisciplined publishing = tt

All-start : (routes : List Route) → All IsDisciplined (map start routes)
All-start [] = tt
All-start (route ∷ routes) = (start-IsDisciplined route, All-start routes)

Fits-do :
    (held : List Hold) (a : Action) (todo : List Action)
    → Fits held (a ∷ todo)
    → Fits (holding a held) todo
Fits-do held release todo h = h
Fits-do [] (acquire keys_lock m) todo h = h
Fits-do (g ∷ held) (acquire keys_lock m) todo h = absurd h
Fits-do held (acquire sessions_lock m) todo h = h.1

All-middle :
    (before after : List Thread) (t : Thread)
    → All IsDisciplined (before ++ t ∷ after)
    → IsDisciplined t
All-middle [] after t h = h.0
All-middle (b ∷ before) after t h = All-middle before after t h.1

All-replace :
    (before after : List Thread) (t u : Thread)
    → (IsDisciplined t → IsDisciplined u)
    → All IsDisciplined (before ++ t ∷ after)
    → All IsDisciplined (before ++ u ∷ after)
All-replace [] after t u f h = (f h.0, h.1)
All-replace (b ∷ before) after t u f h = (h.0, All-replace before after t u f h.1)

Reach-IsDisciplined :
    {ts us : List Thread} → Reach ts us → All IsDisciplined ts → All IsDisciplined us
Reach-IsDisciplined here h = h
Reach-IsDisciplined (next r (moves before after held a todo e may f)) h =
    subst (All IsDisciplined) (sym f) (
      All-replace before after (record { held = held; todo = a ∷ todo })
        (record { held = holding a held; todo = todo }) (Fits-do held a todo)
        (subst (All IsDisciplined) e (Reach-IsDisciplined r h)))

-- A thread that passes a test, or none does.
record Found (test : Thread → Bool) (ts : List Thread) : Type 0 where
  pub before : List Thread
  pub after : List Thread
  pub thread : Thread
  pub split : ts ≡ before ++ thread ∷ after
  pub passes : test thread ≡ true

search_for :
    (test : Thread → Bool) (ts : List Thread) → Found test ts ⊎ All (λ t. test t ≡ false) ts
search_for test [] = inr tt
search_for test (t ∷ ts) = elim (Bool-cases (test t)) [
  | inl yes_here ↦
      inl (record { before = []; after = ts; thread = t; split = refl; passes = yes_here })
  | inr not_here ↦ elim (search_for test ts) [
    | inl found ↦ inl (record {
      before = t ∷ found.before;
      after = found.after;
      thread = found.thread;
      split = cc found.split;
      passes = found.passes;
    })
    | inr none_there ↦ inr (not_here, none_there)
  ]
]

-- What a thread does next.
abbrev does_inner : List Action → Bool
does_inner [] = false
does_inner (release ∷ todo) = true
does_inner (acquire keys_lock m ∷ todo) = false
does_inner (acquire sessions_lock m ∷ todo) = true

abbrev does_more : List Action → Bool
does_more [] = false
does_more (a ∷ todo) = true

-- A thread that holds the sessions drops its guards next.
releases :
    (held : List Hold) (todo : List Action)
    → Fits held todo
    → holds_sessions held ≡ true
    → (rest : List Action) × (todo ≡ release ∷ rest)
releases [] todo h on = cc
releases (g ∷ held) [] h on = absurd h
releases (g ∷ held) (release ∷ todo) h on = (todo, refl)
releases (g ∷ held) (acquire keys_lock m ∷ todo) h on = absurd h
releases (g ∷ held) (acquire sessions_lock m ∷ todo) h on = absurd (cc (h.0, on))

-- A thread that is about to take the keys, or has returned, holds nothing.
holds_nothing :
    (held : List Hold) (todo : List Action) → Fits held todo → does_inner todo ≡ false → held ≡ []
holds_nothing [] todo h outer = refl
holds_nothing (g ∷ held) [] h outer = absurd h
holds_nothing (g ∷ held) (release ∷ todo) h outer = cc
holds_nothing (g ∷ held) (acquire keys_lock m ∷ todo) h outer = absurd h
holds_nothing (g ∷ held) (acquire sessions_lock m ∷ todo) h outer = cc

sessions-free :
    (m : Mode) (held : List Hold)
    → holds_sessions held ≡ false
    → All (λ h. compatible (sessions_lock, m) h ≡ true) held
sessions-free m [] off = tt
sessions-free m ((keys_lock, n) ∷ held) off = (refl, sessions-free m held off)
sessions-free m ((sessions_lock, n) ∷ held) off = cc

MayDo-sessions :
    (m : Mode) (ts : List Thread)
    → All (λ t. holds_sessions t.held ≡ false) ts
    → MayDo (acquire sessions_lock m) ts
MayDo-sessions m [] h = tt
MayDo-sessions m (t ∷ ts) h = (sessions-free m t.held h.0, MayDo-sessions m ts h.1)

MayDo-outer :
    (a : Action) (ts : List Thread)
    → All IsDisciplined ts
    → All (λ t. does_inner t.todo ≡ false) ts
    → MayDo a ts
MayDo-outer release ts h outer = tt
MayDo-outer (acquire l m) [] h outer = tt
MayDo-outer (acquire l m) (t ∷ ts) h outer = (
  subst (All (λ g. compatible (l, m) g ≡ true)) (sym (holds_nothing t.held t.todo h.0 outer.0)) tt,
  MayDo-outer (acquire l m) ts h.1 outer.1,
)

-- The thread that was found can go on, if it may do what it does next.
goes_on :
    (ts before after : List Thread) (t : Thread) (a : Action) (todo : List Action)
    → ts ≡ before ++ t ∷ after
    → t.todo ≡ a ∷ todo
    → MayDo a ts
    → (us : List Thread) × Step ts us
goes_on ts before after t a todo split e may = (
  before ++ record { held = holding a t.held; todo = todo } ∷ after,
  moves before after t.held a todo (cc (split, e)) may refl,
)

inner-cases :
    (todo : List Action)
    → does_inner todo ≡ true
    → ((rest : List Action) × (todo ≡ release ∷ rest))
      ⊎ ((m : Mode) × (rest : List Action) × (todo ≡ acquire sessions_lock m ∷ rest))
inner-cases [] on = cc
inner-cases (release ∷ todo) on = inl (todo, refl)
inner-cases (acquire keys_lock m ∷ todo) on = cc
inner-cases (acquire sessions_lock m ∷ todo) on = inr (m, todo, refl)

more-cases :
    (todo : List Action)
    → does_more todo ≡ true
    → (a : Action) × (rest : List Action) × (todo ≡ a ∷ rest)
more-cases [] on = cc
more-cases (a ∷ todo) on = (a, todo, refl)

All-returned :
    (ts : List Thread)
    → All IsDisciplined ts
    → All (λ t. does_inner t.todo ≡ false) ts
    → All (λ t. does_more t.todo ≡ false) ts
    → All (λ t. (t.todo ≡ []) × (t.held ≡ [])) ts
All-returned [] h outer done = tt
All-returned (t ∷ ts) h outer done = (
  (nothing_left t.todo done.0, holds_nothing t.held t.todo h.0 outer.0),
  All-returned ts h.1 outer.1 done.1,
)
  where
    nothing_left : (todo : List Action) → does_more todo ≡ false → todo ≡ []
    nothing_left [] e = refl
    nothing_left (a ∷ todo) e = cc

-- No deadlock: however finitely many threads that each make one call of the crypto module have taken turns, one of
-- them can take the lock that it asks for or drop its guards, or all of them have returned and hold no guard.
pub never_stuck :
    (routes : List Route) (ts : List Thread)
    → Reach (map start routes) ts
    → ((us : List Thread) × Step ts us) ⊎ All (λ t. (t.todo ≡ []) × (t.held ≡ [])) ts
never_stuck routes ts r =
    let h = Reach-IsDisciplined r (All-start routes) in
    let of_found = λ (before after : List Thread) (t : Thread) (e : ts ≡ before ++ t ∷ after).
      All-middle before after t (subst (All IsDisciplined) e h) in
    elim (search_for (λ t. holds_sessions t.held) ts) [
      | inl f ↦
          let (rest, e) =
            releases f.thread.held f.thread.todo (of_found f.before f.after f.thread f.split)
              f.passes in
          inl (goes_on ts f.before f.after f.thread release rest f.split e tt)
      | inr unheld ↦ elim (search_for (λ t. does_inner t.todo) ts) [
        | inl f ↦ elim (inner-cases f.thread.todo f.passes) [
          | inl (rest, e) ↦ inl (goes_on ts f.before f.after f.thread release rest f.split e tt)
          | inr (m, rest, e) ↦ inl (
              goes_on ts f.before f.after f.thread (acquire sessions_lock m) rest f.split e
                (MayDo-sessions m ts unheld))
        ]
        | inr outer ↦ elim (search_for (λ t. does_more t.todo) ts) [
          | inl f ↦
              let (a, rest, e) = more-cases f.thread.todo f.passes in
              inl (goes_on ts f.before f.after f.thread a rest f.split e (MayDo-outer a ts h outer))
          | inr done ↦ inr (All-returned ts h outer done)
        ]
      ]
    ]
