-- ===== src/Repository/UserQuery/Pages.antt =====
-- Pages of users: src/modules/app/user/repositories/user/user.query.ts and User.repository.ts.
use node_back_end_boilerplat.Prelude.{ℕ, zero, suc, ◌≡◌, ◌≤◌, ◌*◌, arith, some, refl}
use node_back_end_boilerplat.Repository.UserQuery.{
  UserBuildParams, Decimal, natural, build_pagination_params, page_window, taken, skipped,
}

-- A whole limit and a whole page, of which neither is 0, start at a row from `limit` on.
window_start :
    (l p : ℕ) (t : Decimal)
    → taken (page_window (some (natural l)) (some (natural p))) ≡ some t
    → (k : ℕ) × (skipped (page_window (some (natural l)) (some (natural p))) ≡ some (natural k))
      × (t ≡ natural l)
      × (l ≤ k)
window_start zero p t e = cc
window_start (suc l) zero t e = cc
window_start (suc l) (suc p) t e = (suc p * suc l, refl, cc, grind arith)

-- A request with a whole limit and a whole page never reads the first rows where it is cut to a
-- window: the window of `l` rows starts at row `l` or later.
pub first_page_unreachable :
    (params : UserBuildParams) (l p : ℕ) (t : Decimal)
    → params.limit ≡ some (natural l)
    → params.page ≡ some (natural p)
    → (build_pagination_params params).take ≡ some t
    → (k : ℕ) × ((build_pagination_params params).skip ≡ some (natural k))
      × (t ≡ natural l)
      × (l ≤ k)
unfolding build_pagination_params
first_page_unreachable params l p t limit page h =
    rw (limit, page) (window_start l p t (rw (limit, page) at h))
