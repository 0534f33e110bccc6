-- ===== src/Rpc/Callbacks/Channels.antt =====
-- What the callers of the registry get, as responses arrive.
use go_libvirt.Base.{
  ℕ, suc, ◌<◌, ◌≤◌, ◌≡◌, refl, sym, ap, ◌∙◌, Option, none, some, List, [], ◌∷◌, ◌++◌, length, arith,
  ◌==◌, ==_iff, if◌then◌else◌, append-nil, append_assoc,
}
use go_libvirt.Base.Int.{ℤ, ◌==ℤ◌, ==ℤ_iff}
use go_libvirt.Base.Map.{lookup}
use go_libvirt.Rpc.Callbacks.{Response, Calls, callback, handed}
use go_libvirt.Rpc.Callbacks.Registry.{
  IsWell, Answers, ignored, blocks, takes, callback-Answers, handed-IsWell,
}

-- What was handed over on one channel, and what arrived for one serial number.
abbrev pub on_channel : ℕ → List (ℕ × Response) → List Response
on_channel c [] = []
on_channel c ((d, res) ∷ l) = if d == c then res ∷ on_channel c l else on_channel c l

abbrev pub with_serial : ℤ → List (ℤ × Response) → List Response
with_serial id [] = []
with_serial id ((j, res) ∷ l) = if j ==ℤ id then res ∷ with_serial id l else with_serial id l

-- Responses that arrive one after the other; none where one blocks.
unfoldable pub callback_each : List (ℤ × Response) → Calls → Option Calls
callback_each [] s = some s
callback_each ((id, res) ∷ l) s = elim (callback id res s) [
  | none ↦ none
  | some t ↦ callback_each l t
]

on_channel-append :
    (c : ℕ) (l m : List (ℕ × Response)) → on_channel c (l ++ m) ≡ on_channel c l ++ on_channel c m
on_channel-append c [] m = refl
on_channel-append c ((d, res) ∷ l) m = ground (arith, on_channel-append c l m)

with_serial-cons :
    (id j : ℤ) (res : Response) (l : List (ℤ × Response))
    → with_serial id ((j, res) ∷ []) ++ with_serial id l ≡ with_serial id ((j, res) ∷ l)
with_serial-cons id j res l = ground arith

some_same : {A : Type 0} {x y : A} → some x ≡ some y → y ≡ x
some_same h = cc

module _ (id : ℤ) (c : ℕ) where
  -- What a response leaves of the caller's channel and of what it receives.
  handed-on_channel :
      (j : ℤ) (d n : ℕ) (res : Response) (s : Calls)
      → IsWell s
      → lookup id s.callbacks ≡ some c
      → lookup j s.callbacks ≡ some d
      → on_channel c (handed d n res s).sent ≡ on_channel c s.sent ++ with_serial id ((j, res) ∷ [])
  handed-on_channel j d n res s v found there =
      rw (on_channel-append c s.sent ((d, res) ∷ []))
        (ground (arith, v.distinct j id c, ==ℤ_iff j id, ==_iff d c))

  handed-receives :
      (j : ℤ) (d n : ℕ) (res : Response) (l : List (ℤ × Response)) (s : Calls)
      → IsWell s
      → lookup id s.callbacks ≡ some c
      → lookup j s.callbacks ≡ some d
      → s.receives d ≡ suc n
      → (s.receives c < length (with_serial id ((j, res) ∷ l))
          → (handed d n res s).receives c < length (with_serial id l))
        × (length (with_serial id ((j, res) ∷ l)) ≤ s.receives c
            → length (with_serial id l) ≤ (handed d n res s).receives c)
  handed-receives j d n res l s v found there more = (
    (λ h. ground (arith, v.distinct j id c, ==ℤ_iff j id, ==_iff d c)),
    λ h. ground (arith, v.distinct j id c, ==ℤ_iff j id, ==_iff d c),
  )

  -- A caller that is registered gets, on its channel, exactly the responses with its serial number.
  pub callback_each-on_channel :
      (l : List (ℤ × Response)) (s t : Calls)
      → IsWell s
      → lookup id s.callbacks ≡ some c
      → callback_each l s ≡ some t
      → on_channel c t.sent ≡ on_channel c s.sent ++ with_serial id l
  unfolding callback_each
  callback_each-on_channel [] s t v found h =
      ap (λ x. on_channel c x.sent) (some_same h) ∙ sym (append-nil (on_channel c s.sent))
  callback_each-on_channel ((j, res) ∷ l) s t v found h =
      by (λ u. callback_each-on_channel l u t) (callback j res s) (callback-Answers j res s v) h
    where
      by :
          ((u : Calls)
            → IsWell u
            → lookup id u.callbacks ≡ some c
            → callback_each l u ≡ some t
            → on_channel c t.sent ≡ on_channel c u.sent ++ with_serial id l)
          → (o : Option Calls) → Answers j res s o
          → elim o [ none ↦ none | some x ↦ callback_each l x ] ≡ some t
          → on_channel c t.sent ≡ on_channel c s.sent ++ with_serial id ((j, res) ∷ l)
      by ih _ (blocks d there over) h = absurd (ground (arith, h))
      by ih _ (ignored gone) h =
          ih s v found h
          ∙ ap (λ x. on_channel c s.sent ++ x) (ground (arith, ==ℤ_iff j id, gone, found))
      by ih _ (takes d n there more) h =
          ih (handed d n res s) (handed-IsWell d n res s v) found h
          ∙ ap (λ x. x ++ with_serial id l) (handed-on_channel j d n res s v found there)
          ∙ append_assoc (on_channel c s.sent) (with_serial id ((j, res) ∷ [])) (with_serial id l)
          ∙ ap (λ x. on_channel c s.sent ++ x) (with_serial-cons id j res l)

  -- One response more than its caller receives blocks.
  pub callback_each-blocks :
      (l : List (ℤ × Response)) (s : Calls)
      → IsWell s
      → lookup id s.callbacks ≡ some c
      → s.receives c < length (with_serial id l)
      → callback_each l s ≡ none
  unfolding callback_each
  callback_each-blocks [] s v found h = absurd (omega (arith, h))
  callback_each-blocks ((j, res) ∷ l) s v found h =
      by (callback_each-blocks l) (callback j res s) (callback-Answers j res s v)
    where
      by :
          ((u : Calls)
            → IsWell u
            → lookup id u.callbacks ≡ some c
            → u.receives c < length (with_serial id l)
            → callback_each l u ≡ none)
          → (o : Option Calls) → Answers j res s o
          → elim o [ none ↦ none | some x ↦ callback_each l x ] ≡ none
      by ih _ (blocks d there over) = refl
      by ih _ (ignored gone) = ih s v found (ground (arith, h, ==ℤ_iff j id, gone, found))
      by ih _ (takes d n there more) =
          ih (handed d n res s) (handed-IsWell d n res s v) found
            ((handed-receives j d n res l s v found there more).0 h)

-- Every caller receives as many responses as there are for it.
abbrev pub Enough : List (ℤ × Response) → Calls → Type 0
Enough l s =
    (id : ℤ) (c : ℕ) → lookup id s.callbacks ≡ some c → length (with_serial id l) ≤ s.receives c

pub callback_each-returns :
    (l : List (ℤ × Response)) (s : Calls)
    → IsWell s
    → Enough l s
    → (t : Calls) × (callback_each l s ≡ some t)
unfolding callback_each
callback_each-returns [] s v enough = (s, refl)
callback_each-returns ((j, res) ∷ l) s v enough =
    by (callback_each-returns l) (callback j res s) (callback-Answers j res s v)
  where
    fewer : (id : ℤ) → length (with_serial id l) ≤ length (with_serial id ((j, res) ∷ l))
    fewer id = ground arith

    own : 1 ≤ length (with_serial j ((j, res) ∷ l))
    own = ground (arith, ==ℤ_iff j j)

    by :
        ((u : Calls) → IsWell u → Enough l u → (t : Calls) × (callback_each l u ≡ some t))
        → (o : Option Calls) → Answers j res s o
        → (t : Calls) × (elim o [ none ↦ none | some x ↦ callback_each l x ] ≡ some t)
    by ih _ (blocks d there over) = absurd (omega (arith, own, enough j d there, over))
    by ih _ (ignored gone) = ih s v (λ id c found. omega (arith, fewer id, enough id c found))
    by ih _ (takes d n there more) =
        ih (handed d n res s) (handed-IsWell d n res s v) (λ id c found.
          (handed-receives id c j d n res l s v found there more).1 (enough id c found))
