-- ===== src/Rpc/Callbacks/Registry.antt =====
-- A well-formed registry: no operation closes a channel twice or sends on a closed one.
use go_libvirt.Base.{
  ℕ, ◌≡◌, ◌≢◌, ◌⊎◌, refl, ◌∙◌, zero, suc, Option, true, false, none, some, List, [], ◌∷◌, arith,
  ==_iff, if◌then◌else◌, Bool-cases, Option-cases, inl, inr,
}
use go_libvirt.Base.Int.{ℤ, ◌==ℤ◌, ==ℤ_iff}
use go_libvirt.Base.Map.{lookup, lookup-insert, lookup-delete, lookup-nil, lookup-cons}
use go_libvirt.Rpc.Callbacks.{
  Response, Calls, register, callback, deregister, deregister_each, deregister_all, handed,
}

pub record IsWell (s : Calls) : Type 0 where
  pub fine : s.panicked ≡ false
  pub is_open : (id : ℤ) (c : ℕ) → lookup id s.callbacks ≡ some c → s.closed c ≡ false
  pub distinct :
      (i j : ℤ) (c : ℕ) → lookup i s.callbacks ≡ some c → lookup j s.callbacks ≡ some c → i ≡ j

-- A channel that `make` has just made.
pub record IsFresh (c : ℕ) (s : Calls) : Type 0 where
  pub not_closed : s.closed c ≡ false
  pub unused : (id : ℤ) → lookup id s.callbacks ≢ some c

-- The registry of a new client.
abbrev pub no_calls : Calls
no_calls = record {
  callbacks = [];
  closed = λ c. false;
  sent = [];
  receives = λ c. 1;
  panicked = false;
}

pub no_calls-IsWell : IsWell no_calls
no_calls-IsWell = record {
  fine = refl;
  is_open = λ id c h. refl;
  distinct = λ i j c h k. absurd (ground (arith, lookup-nil {V = ℕ} i));
}

pub register-IsWell :
    (id : ℤ) (c : ℕ) (s : Calls) → IsFresh c s → IsWell s → IsWell (register id c s)
unfolding register
register-IsWell id c s f v = record {
  fine = v.fine;
  is_open = λ i d h. ground (arith, lookup-insert id i c s.callbacks, v.is_open i d, f.not_closed);
  distinct = λ i j d h k. ground (
    arith,
    lookup-insert id i c s.callbacks,
    lookup-insert id j c s.callbacks,
    v.distinct i j d,
    f.unused i,
    f.unused j,
    ==ℤ_iff id i,
    ==ℤ_iff id j,
  );
}

-- What a response comes to: nobody waits for it, its caller receives no more, or its caller takes it.
pub data Answers (j : ℤ) (res : Response) (s : Calls) : Option Calls → Type 0 where
  ignored : lookup j s.callbacks ≡ none → Answers j res s (some s)
  blocks : (c : ℕ) → lookup j s.callbacks ≡ some c → s.receives c ≡ 0 → Answers j res s none
  takes :
      (c n : ℕ)
      → lookup j s.callbacks ≡ some c
      → s.receives c ≡ suc n
      → Answers j res s (some (handed c n res s))

pub callback-Answers :
    (j : ℤ) (res : Response) (s : Calls) → IsWell s → Answers j res s (callback j res s)
unfolding callback
callback-Answers j res s v = elim (Option-cases (lookup j s.callbacks)) [
  | inl gone ↦ rw (gone, callback) (ignored gone)
  | inr (c, found) ↦
      rw (found, callback) (rw (v.is_open j c found) (by c found (s.receives c) refl))
]
  where
    by :
        (c : ℕ)
        → lookup j s.callbacks ≡ some c
        → (m : ℕ) → s.receives c ≡ m
        → Answers j res s (elim m [ zero ↦ none | suc n ↦ some (handed c n res s) ])
    by c found zero e = blocks c found e
    by c found (suc n) e = takes c n found e

pub handed-IsWell : (c n : ℕ) (res : Response) (s : Calls) → IsWell s → IsWell (handed c n res s)
handed-IsWell c n res s v = record { fine = v.fine; is_open = v.is_open; distinct = v.distinct }

pub deregister-IsWell : (id : ℤ) (s : Calls) → IsWell s → IsWell (deregister id s)
unfolding deregister
deregister-IsWell id s v = elim (Option-cases (lookup id s.callbacks)) [
  | inl gone ↦ rw (gone, deregister) v
  | inr (c, found) ↦
      rw (found, deregister)
        (rw (v.is_open id c found) (record {
          fine = v.fine;
          is_open = λ i d h. ground (
            arith,
            lookup-delete id i s.callbacks,
            v.is_open i d,
            v.distinct i id d,
            ==ℤ_iff id i,
            ==_iff c d,
          );
          distinct = λ i j d h k. ground (
            arith,
            lookup-delete id i s.callbacks,
            lookup-delete id j s.callbacks,
            v.distinct i j d,
          );
        }))
]

pub lookup-deregister :
    (id j : ℤ) (s : Calls)
    → lookup j (deregister id s).callbacks ≡ (if id ==ℤ j then none else lookup j s.callbacks)
unfolding deregister
lookup-deregister id j s = ground (arith, lookup-delete id j s.callbacks, ==ℤ_iff id j)

closed-deregister :
    (id : ℤ) (c : ℕ) (s : Calls)
    → IsWell s
    → (s.closed c ≡ true) ⊎ (lookup id s.callbacks ≡ some c)
    → (deregister id s).closed c ≡ true
unfolding deregister
closed-deregister id c s v (inl h) = ground (arith, ==_iff c c)
closed-deregister id c s v (inr h) = ground (arith, v.is_open id c, ==_iff c c)

deregister_each-IsWell : (l : List (ℤ × ℕ)) (s : Calls) → IsWell s → IsWell (deregister_each l s)
unfolding deregister_each
deregister_each-IsWell [] s v = v
deregister_each-IsWell ((i, c) ∷ l) s v = deregister_each-IsWell l _ (deregister-IsWell i s v)

-- The first key of the range is gone after its `deregister`, and the later ones are still to come.
lookup_later :
    (i j : ℤ) (c : ℕ) (l : List (ℤ × ℕ)) (s : Calls)
    → (lookup j ((i, c) ∷ l) ≢ none) ⊎ (lookup j s.callbacks ≡ none)
    → (lookup j l ≢ none) ⊎ (lookup j (deregister i s).callbacks ≡ none)
lookup_later i j c l s h = elim (Bool-cases (i ==ℤ j)) [
  | inl same ↦ inr (lookup-deregister i j s ∙ rw same)
  | inr other ↦ elim h [
    | inl p ↦ inl (λ e. p (lookup-cons i j c l ∙ rw other e))
    | inr p ↦ inr (lookup-deregister i j s ∙ rw other p)
  ]
]

lookup-deregister_each :
    (l : List (ℤ × ℕ)) (s : Calls) (j : ℤ)
    → (lookup j l ≢ none) ⊎ (lookup j s.callbacks ≡ none)
    → lookup j (deregister_each l s).callbacks ≡ none
unfolding deregister_each
lookup-deregister_each [] s j (inl h) = absurd (h (lookup-nil j))
lookup-deregister_each [] s j (inr h) = h
lookup-deregister_each ((i, c) ∷ l) s j h =
    lookup-deregister_each l (deregister i s) j (lookup_later i j c l s h)

closed-deregister_each :
    (l : List (ℤ × ℕ)) (s : Calls) (j : ℤ) (c : ℕ)
    → IsWell s
    → (s.closed c ≡ true) ⊎ ((lookup j l ≢ none) × (lookup j s.callbacks ≡ some c))
    → (deregister_each l s).closed c ≡ true
unfolding deregister_each
closed-deregister_each [] s j c v (inl h) = h
closed-deregister_each [] s j c v (inr (h, found)) = absurd (h (lookup-nil j))
closed-deregister_each ((i, d) ∷ l) s j c v (inl h) =
    closed-deregister_each l _ j c (deregister-IsWell i s v)
      (inl (closed-deregister i c s v (inl h)))
closed-deregister_each ((i, d) ∷ l) s j c v (inr (h, found)) = elim (Bool-cases (i ==ℤ j)) [
  | inl same ↦
      closed-deregister_each l _ j c (deregister-IsWell i s v)
        (inl (closed-deregister i c s v (inr (rw ((==ℤ_iff i j).0 same) found))))
  | inr other ↦
      closed-deregister_each l _ j c (deregister-IsWell i s v) (
        inr ((λ e. h (lookup-cons i j d l ∙ rw other e)), lookup-deregister i j s ∙ rw other found))
]

-- `deregisterAll` leaves nobody waiting: every channel that was registered is closed, once, and the
-- registry is empty.
pub deregister_all_lem :
    (s : Calls)
    → IsWell s
    → ((deregister_all s).panicked ≡ false)
      × ((id : ℤ) → lookup id (deregister_all s).callbacks ≡ none)
      × ((id : ℤ) (c : ℕ) → lookup id s.callbacks ≡ some c → (deregister_all s).closed c ≡ true)
unfolding deregister_all
deregister_all_lem s v = (
  (deregister_each-IsWell s.callbacks s v).fine,
  (λ id. lookup-deregister_each s.callbacks s id (lookup_or_not id)),
  λ id c found.
      closed-deregister_each s.callbacks s id c v
        (inr ((λ e. absurd (ground (arith, found))), found)),
)
  where
    lookup_or_not : (id : ℤ) → (lookup id s.callbacks ≢ none) ⊎ (lookup id s.callbacks ≡ none)
    lookup_or_not id = elim (Option-cases (lookup id s.callbacks)) [
      | inl e ↦ inr e
      | inr (c, e) ↦ inl (λ f. absurd (ground (arith, e)))
    ]
