-- ===== src/Loader/Watch.antt =====
-- `watch_for_new_generation` of membership_loader.py: a worker follows the generations that are
-- published.
use opencti_middleware.Base.{
  ℕ, ◌≤◌, ◌<◌, ◌≡◌, ◌⊎◌, refl, Option, none, some, List, [], ◌∷◌, arith, inl, inr, All, leb,
  Bool-cases, Option-cases, if◌then◌else◌,
}
use opencti_middleware.Settings.{Settings}
use opencti_middleware.Membership.{Segments, MembershipSet}
use opencti_middleware.Shared.{StateFile, read}
use opencti_middleware.Loader.{attach_to}

-- One look of `watch_for_new_generation` at the state file and the segments: the generation that the
-- watcher is at afterwards, and the set that it hands over, if any.
unfoldable pub watch_once : Settings → StateFile × Segments → ℕ → ℕ × Option MembershipSet
watch_once s (file, shm) generation = elim (read file) [
  | none ↦ (generation, none)
  | some state ↦
      if leb state.generation generation then (generation, none) else elim (attach_to state s shm) [
        | none ↦ (generation, none)
        | some m ↦ (state.generation, some m)
      ]
]

-- what is handed over, with the generation of each set
abbrev pub hand_over :
    ℕ × Option MembershipSet → List (ℕ × MembershipSet) → List (ℕ × MembershipSet)
hand_over (generation, none) rest = rest
hand_over (generation, some m) rest = (generation, m) ∷ rest

-- `watch_for_new_generation`, over what it sees at its looks
unfoldable pub watch_for_new_generation :
    Settings → List (StateFile × Segments) → ℕ → List (ℕ × MembershipSet)
watch_for_new_generation s [] generation = []
watch_for_new_generation s (look ∷ looks) generation =
    let r = watch_once s look generation in hand_over r (watch_for_new_generation s looks r.0)

-- what a look offers: the published set with its generation, where it can be attached to
unfoldable pub offered : Settings → StateFile × Segments → Option (ℕ × MembershipSet)
offered s look = elim (read look.0) [
  | none ↦ none
  | some state ↦ elim (attach_to state s look.1) [
    | none ↦ none
    | some m ↦ some (state.generation, m)
  ]
]

-- the generations of the sets ascend from a first one
abbrev pub Rising : ℕ → List (ℕ × MembershipSet) → Type 0
Rising generation [] = Unit
Rising generation (p ∷ rest) = (generation < p.0) × Rising p.0 rest

-- the generation of the last set, or the first one
abbrev pub reached_by : ℕ → List (ℕ × MembershipSet) → ℕ
reached_by generation [] = generation
reached_by generation (p ∷ rest) = reached_by p.0 rest

-- the generation that a look offers is not above another
abbrev pub OffersAtMost : ℕ → Option (ℕ × MembershipSet) → Type 0
OffersAtMost n none = Unit
OffersAtMost n (some p) = p.0 ≤ n

-- one of the looks offers this
pub data Offers (s : Settings) (p : ℕ × MembershipSet) : List (StateFile × Segments) → Type 0 where
  here :
      {look : StateFile × Segments} {looks : List (StateFile × Segments)}
      → offered s look ≡ some p
      → Offers s p (look ∷ looks)
  there :
      {look : StateFile × Segments} {looks : List (StateFile × Segments)}
      → Offers s p looks
      → Offers s p (look ∷ looks)

-- A list of sets follows what the looks offer.
pub record Follows (s : Settings) (looks : List (StateFile × Segments)) (generation : ℕ)
    (handed : List (ℕ × MembershipSet)) : Type 0 where
  pub rising : Rising generation handed
  pub caught_up : All (λ look. OffersAtMost (reached_by generation handed) (offered s look)) looks
  pub taken : All (λ p. Offers s p looks) handed

-- A look either offers nothing above the watcher's generation and changes nothing, or the watcher
-- takes what it offers.
watch_once_cases :
    (s : Settings) (look : StateFile × Segments) (generation : ℕ)
    → ((watch_once s look generation ≡ (generation, none))
        × OffersAtMost generation (offered s look))
      ⊎ (p : ℕ × MembershipSet) × (watch_once s look generation ≡ (p.0, some p.1))
        × (offered s look ≡ some p)
        × (generation < p.0)
unfolding watch_once offered
watch_once_cases s look generation = elim (Option-cases (read look.0)) [
  | inl e ↦ rw (e, watch_once, offered) (inl (refl, tt))
  | inr (st, e) ↦ elim (Bool-cases (leb st.generation generation)) [
    | inl old ↦ elim (Option-cases (attach_to st s look.1)) [
      | inl k ↦ rw (e, old, k, watch_once, offered) (inl (refl, tt))
      | inr (m, k) ↦ rw (e, old, k, watch_once, offered) (inl (refl, ground arith))
    ]
    | inr new ↦ elim (Option-cases (attach_to st s look.1)) [
      | inl k ↦ rw (e, new, k, watch_once, offered) (inl (refl, tt))
      | inr (m, k) ↦
          rw (e, new, k, watch_once, offered) (inr ((st.generation, m), refl, refl, ground arith))
    ]
  ]
]

reached_by-le :
    (generation : ℕ) (handed : List (ℕ × MembershipSet))
    → Rising generation handed
    → generation ≤ reached_by generation handed
reached_by-le generation [] h = omega arith
reached_by-le generation (p ∷ rest) h = omega (arith, h.0, reached_by-le p.0 rest h.1)

OffersAtMost-le :
    (m n : ℕ) (o : Option (ℕ × MembershipSet)) → m ≤ n → OffersAtMost m o → OffersAtMost n o
OffersAtMost-le m n none le h = tt
OffersAtMost-le m n (some p) le h = omega arith

-- The sets that the watcher hands over ascend strictly in their generations, from the one that the
-- worker has; each was published when the watcher looked; and at the end no look has offered a
-- generation above that of the last set handed over.
pub watch-Follows :
    (s : Settings) (looks : List (StateFile × Segments)) (generation : ℕ)
    → Follows s looks generation (watch_for_new_generation s looks generation)
unfolding watch_for_new_generation
watch-Follows s [] generation = record { rising = tt; caught_up = tt; taken = tt }
watch-Follows s (look ∷ looks) generation = elim (watch_once_cases s look generation) [
  | inl (e, most) ↦ rw (e, watch_for_new_generation) (later (watch-Follows s looks generation) most)
  | inr (p, e, offer, above) ↦
      rw (e, watch_for_new_generation) (taken (watch-Follows s looks p.0) offer above)
]
  where
    All-there :
        (handed : List (ℕ × MembershipSet))
        → All (λ p. Offers s p looks) handed
        → All (λ p. Offers s p (look ∷ looks)) handed
    All-there [] a = tt
    All-there (p ∷ rest) a = (Offers.there a.0, All-there rest a.1)

    later :
        {handed : List (ℕ × MembershipSet)}
        → Follows s looks generation handed
        → OffersAtMost generation (offered s look)
        → Follows s (look ∷ looks) generation handed
    later {handed} f most = record {
      rising = f.rising;
      caught_up = (
        OffersAtMost-le _ _ (offered s look) (reached_by-le _ handed f.rising) most,
        f.caught_up,
      );
      taken = All-there handed f.taken;
    }

    taken :
        {p : ℕ × MembershipSet} {handed : List (ℕ × MembershipSet)}
        → Follows s looks p.0 handed
        → offered s look ≡ some p
        → generation < p.0
        → Follows s (look ∷ looks) generation (p ∷ handed)
    taken {p} {handed} f offer above = record {
      rising = (above, f.rising);
      caught_up = (rw offer (reached_by-le p.0 handed f.rising), f.caught_up);
      taken = (Offers.here offer, All-there handed f.taken);
    }
