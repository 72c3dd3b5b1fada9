-- ===== src/Mapper/Ranking.antt =====
-- The order of the surviving indicators, best first (`rank` and the sort of `select_indicators`).
use opencti_middleware.Base.{ℕ, String, Bool, ◌&&◌, List, [], ◌∷◌, map, ltb, ◌==◌, if◌then◌else◌, ℤ}
use opencti_middleware.Base.{leb_ℤ}
use opencti_middleware.Base.Text.{text_le}
use opencti_middleware.Base.Json.{Fields, get, truthy}
use opencti_middleware.Base.Result.{Result, ok, ◌>>=◌}
use opencti_middleware.Base.Python.{Python, int_or_zero}
use opencti_middleware.Settings.{Settings}
use opencti_middleware.Mapper.Policy.{is_expired, candidates, survivors}

-- 0 for a live indicator and 1 for one that has expired, then its score, then when it ends
pub record Rank : Type 0 where
  pub expired : ℕ
  pub score : ℤ
  pub until : String

unfoldable pub rank : Python → ℕ → Fields → Result Rank
rank py now ind = is_expired py now ind >>= λ expired.
    int_or_zero py (get "x_opencti_score" ind) >>= λ score. ok (record {
      expired = if expired then 1 else 0;
      score = score;
      until = if truthy (get "valid_until" ind) then py.str_of (get "valid_until" ind) else "";
    })

-- `a <= b`, where the source compares the negated scores
unfoldable pub rank_le : Rank → Rank → Bool
rank_le a b =
    if a.expired == b.expired
    then if leb_ℤ a.score b.score && leb_ℤ b.score a.score
      then text_le a.until b.until
      else leb_ℤ b.score a.score
    else ltb a.expired b.expired

-- `sort(key=rank)`: all keys first, then a stable sort of the indicators by their keys
abbrev pub Ranked : Type 0
Ranked = Rank × Fields

unfoldable pub rank_all : Python → ℕ → List Fields → Result (List Ranked)
rank_all py now [] = ok []
rank_all py now (ind ∷ inds) =
    rank py now ind >>= λ r. rank_all py now inds >>= λ rs. ok ((r, ind) ∷ rs)

unfoldable pub place : Ranked → List Ranked → List Ranked
place e [] = e ∷ []
place e (d ∷ ds) = let rest = place e ds in if rank_le e.0 d.0 then e ∷ d ∷ ds else d ∷ rest

unfoldable pub sort : List Ranked → List Ranked
sort [] = []
sort (e ∷ es) = place e (sort es)

unfoldable pub select_indicators : Python → Settings → ℕ → Fields → Result (List Fields)
select_indicators py s now node =
    candidates node >>= survivors py s now >>= rank_all py now >>= λ rs.
    ok (map (λ r. r.1) (sort rs))
