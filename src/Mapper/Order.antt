-- ===== src/Mapper/Order.antt =====
-- The indicators that are selected, and their order (`select_indicators`).
use opencti_middleware.Base.{
  ℕ, String, ◌≡◌, sym, Bool, true, false, false≢true, ◌&&◌, List, [], ◌∷◌, map, arith, inl, inr,
  All, Bool-cases, ℤ, if◌then◌else◌,
}
use opencti_middleware.Base.{leb_ℤ, leb_ℤ_trans, leb_ℤ_total, leb_ℤ_antisymm}
use opencti_middleware.Base.Text.{text_le, text_le_trans, text_le_total}
use opencti_middleware.Base.Json.{Fields, get, truthy}
use opencti_middleware.Base.Result.{Result, ok, ◌>>=◌, ok_of_bind}
use opencti_middleware.Base.Python.{Python, int_or_zero}
use opencti_middleware.Settings.{Settings}
use opencti_middleware.Mapper.Policy.{is_expired, candidates, survivors}
use opencti_middleware.Mapper.Ranking.{
  Rank, Ranked, rank, rank_le, rank_all, place, sort, select_indicators,
}

rank_le_trans : (a b c : Rank) → rank_le a b ≡ true → rank_le b c ≡ true → rank_le a c ≡ true
unfolding rank_le
rank_le_trans a b c h k = ground (
  arith,
  leb_ℤ_trans a.score b.score c.score,
  leb_ℤ_trans c.score b.score a.score,
  text_le_trans a.until b.until c.until,
)

rank_le_total : (a b : Rank) → rank_le a b ≡ false → rank_le b a ≡ true
unfolding rank_le
rank_le_total a b h = ground (arith, leb_ℤ_total a.score b.score, text_le_total a.until b.until)

-- each before all that follow it
Ascending : List Ranked → Type 0
Ascending [] = Unit
Ascending (e ∷ es) = All (λ d. rank_le e.0 d.0 ≡ true) es × Ascending es

All-trans :
    (a b : Rank) (es : List Ranked)
    → rank_le a b ≡ true
    → All (λ d. rank_le b d.0 ≡ true) es
    → All (λ d. rank_le a d.0 ≡ true) es
All-trans a b [] h k = tt
All-trans a b (e ∷ es) h k = (rank_le_trans a b e.0 h k.0, All-trans a b es h k.1)

All-place :
    (P : Ranked → Type 0) (e : Ranked) (es : List Ranked) → P e → All P es → All P (place e es)
unfolding place
All-place P e [] p ps = (p, tt)
All-place P e (d ∷ ds) p ps = elim (Bool-cases (rank_le e.0 d.0)) [
  | inl h ↦ rw h (p, ps)
  | inr h ↦ rw h (ps.0, All-place P e ds p ps.1)
]

place-Ascending : (e : Ranked) (es : List Ranked) → Ascending es → Ascending (place e es)
unfolding place Ascending
place-Ascending e [] a = (tt, tt)
place-Ascending e (d ∷ ds) a = elim (Bool-cases (rank_le e.0 d.0)) [
  | inl h ↦ rw h ((h, All-trans e.0 d.0 ds h a.0), a)
  | inr h ↦ rw h (All-place _ e ds (rank_le_total e.0 d.0 h) a.0, place-Ascending e ds a.1)
]

sort-Ascending : (es : List Ranked) → Ascending (sort es)
unfolding sort Ascending
sort-Ascending [] = tt
sort-Ascending (e ∷ es) = place-Ascending e (sort es) (sort-Ascending es)

All-sort : (P : Ranked → Type 0) (es : List Ranked) → All P es → All P (sort es)
unfolding sort
All-sort P [] ps = tt
All-sort P (e ∷ es) ps = All-place P e (sort es) ps.0 (All-sort P es ps.1)

-- the indicators without their ranks
unfoldable pub inds_of : List Ranked → List Fields
inds_of = map (λ r. r.1)

-- What a rank holds: whether the indicator has expired, its score, and when it ends, as a text.
abbrev pub rank_of : Bool → ℤ → String → Rank
rank_of expired score until = record {
  expired = if expired then 1 else 0;
  score = score;
  until = until;
}

-- A live indicator before one that has expired; of two that are both live or both expired the one of
-- the higher score; of two of the same score the one whose end comes first, as a text.
pub data IsBetter : Bool → ℤ → String → Bool → ℤ → String → Type 0 where
  live : {m n : ℤ} {u v : String} → IsBetter false m u true n v
  higher : {x : Bool} {m n : ℤ} {u v : String} → leb_ℤ m n ≡ false → IsBetter x m u x n v
  earlier : {x : Bool} {n : ℤ} {u v : String} → text_le u v ≡ true → IsBetter x n u x n v

same_age :
    (x : Bool) (m n : ℤ) (u v : String)
    → (if leb_ℤ m n && leb_ℤ n m then text_le u v else leb_ℤ n m) ≡ true
    → IsBetter x m u x n v
same_age x m n u v h = elim (Bool-cases (leb_ℤ m n)) [
  | inr above ↦ IsBetter.higher above
  | inl below ↦
      let back : leb_ℤ n m ≡ true = ground arith in
      let same : m ≡ n = leb_ℤ_antisymm m n below back in
      let ends : text_le u v ≡ true = rw (below, back) at h in rw same (IsBetter.earlier ends)
]

rank_le-IsBetter :
    (x y : Bool) (m n : ℤ) (u v : String)
    → rank_le (rank_of x m u) (rank_of y n v) ≡ true
    → IsBetter x m u y n v
unfolding rank_le
rank_le-IsBetter false false m n u v h = same_age false m n u v h
rank_le-IsBetter true true m n u v h = same_age true m n u v h
rank_le-IsBetter false true m n u v h = IsBetter.live
rank_le-IsBetter true false m n u v h = absurd (false≢true h)

module _ (py : Python) (now : ℕ) where
  unfoldable pub IsRanked : Ranked → Type 0
  IsRanked r = rank py now r.1 ≡ ok r.0

  pub rank_all-IsRanked :
      (inds : List Fields) {rs : List Ranked}
      → rank_all py now inds ≡ ok rs
      → All IsRanked rs × (inds_of rs ≡ inds)
  unfolding rank_all IsRanked inds_of
  rank_all-IsRanked [] h = ground arith
  rank_all-IsRanked (ind ∷ inds) h =
      let (r, e, k) = ok_of_bind (rank py now ind) h in
      let (rs, e', k') = ok_of_bind (rank_all py now inds) k in
      let (a, b) = rank_all-IsRanked inds e' in ground arith

  -- the end of an indicator, as a text
  abbrev pub end_text : Fields → String
  end_text ind = if truthy (get "valid_until" ind) then py.str_of (get "valid_until" ind) else ""

  -- one indicator is no worse than another, by what its fields say
  pub record IsBefore (a b : Fields) : Type 0 where
    pub expired_a : Bool
    pub expired_b : Bool
    pub score_a : ℤ
    pub score_b : ℤ
    pub reads_a :
        (is_expired py now a ≡ ok expired_a)
        × (int_or_zero py (get "x_opencti_score" a) ≡ ok score_a)
    pub reads_b :
        (is_expired py now b ≡ ok expired_b)
        × (int_or_zero py (get "x_opencti_score" b) ≡ ok score_b)
    pub better : IsBetter expired_a score_a (end_text a) expired_b score_b (end_text b)

  rank_reads :
      (ind : Fields) {r : Rank}
      → rank py now ind ≡ ok r
      → (x : Bool) × (m : ℤ) × (is_expired py now ind ≡ ok x)
        × (int_or_zero py (get "x_opencti_score" ind) ≡ ok m)
        × (rank_of x m (end_text ind) ≡ r)
  unfolding rank
  rank_reads ind {r} h =
      let (x, e, k) = ok_of_bind (is_expired py now ind) h in
      let (m, e', k') = ok_of_bind (int_or_zero py (get "x_opencti_score" ind)) k in
      (x, m, e, e', ok-injective k')
    where
      ok-injective : {a b : Rank} → Result.ok a ≡ ok b → a ≡ b
      ok-injective h = cc

  ranked-IsBefore :
      (a b : Fields) (r q : Rank)
      → rank py now a ≡ ok r
      → rank py now b ≡ ok q
      → rank_le r q ≡ true
      → IsBefore a b
  ranked-IsBefore a b r q h k le =
      let (x, m, e, e', s) = rank_reads a h in
      let (y, n, f, f', t) = rank_reads b k in
      record {
        expired_a = x;
        expired_b = y;
        score_a = m;
        score_b = n;
        reads_a = (e, e');
        reads_b = (f, f');
        better = rank_le-IsBetter x y m n (end_text a) (end_text b) (rw (s, t) le);
      }

  pub IsSorted : List Fields → Type 0
  IsSorted [] = Unit
  IsSorted (a ∷ inds) = All (IsBefore a) inds × IsSorted inds

  IsBefore-All :
      (e : Ranked) (rs : List Ranked)
      → IsRanked e
      → All IsRanked rs
      → All (λ d. rank_le e.0 d.0 ≡ true) rs
      → All (IsBefore e.1) (inds_of rs)
  unfolding IsRanked inds_of
  IsBefore-All e [] h k l = tt
  IsBefore-All e (d ∷ ds) h k l =
      (ranked-IsBefore e.1 d.1 e.0 d.0 h k.0 l.0, IsBefore-All e ds h k.1 l.1)

  IsSorted-of_ranked : (rs : List Ranked) → All IsRanked rs → Ascending rs → IsSorted (inds_of rs)
  unfolding inds_of IsSorted Ascending
  IsSorted-of_ranked [] h a = tt
  IsSorted-of_ranked (e ∷ es) h a = (IsBefore-All e es h.0 h.1 a.0, IsSorted-of_ranked es h.1 a.1)

  -- Of the indicators that are selected each stands before any that it is better than: live ones before
  -- those that have expired at the time `now`; of two alike in that, the one of the higher score; of two
  -- of the same score, the one whose date of end comes first as a text. So the first, which the payload
  -- describes, is no worse than any other.
  pub select_indicators-IsSorted :
      (s : Settings) (node : Fields) (inds : List Fields)
      → select_indicators py s now node ≡ ok inds
      → IsSorted inds
  unfolding select_indicators inds_of
  select_indicators-IsSorted s node inds h =
      let (rs, e, k) = ok_of_bind (candidates node >>= survivors py s now >>= rank_all py now) h in
      let (ks, e', k') = ok_of_bind (candidates node >>= survivors py s now) e in
      let ranked = rank_all-IsRanked ks k' in
      let sorted = IsSorted-of_ranked (sort rs) (All-sort _ rs ranked.0) (sort-Ascending rs) in
      let same : inds_of (sort rs) ≡ inds = ground arith in rw (sym same) sorted
