-- ===== src/Repository/Abstract.antt =====
-- src/modules/core/infra/database/repositories/AbstractRepository.repository.ts, for entities `E` that
-- are kept as registers `M`. `validatePayload` passes every entity of the declared type.
use node_back_end_boilerplat.Prelude.{
  ℕ, String, Bool, not, eqb, if◌then◌else◌, Option, none, some, or_else, List, [], ◌∷◌, length,
}
use node_back_end_boilerplat.Exceptions.{as_error, internal}
use node_back_end_boilerplat.Effects.{
  Result, ok, Exec, pure, lift, fail, try_catch, bind_result, ◌>>=◌, ◌>>◌,
}
use node_back_end_boilerplat.Repository.UserQuery.{total_pages, Decimal, natural}

-- TypeORM's `Repository` on a database `S`: registers `M` are created from `C`, changed by `D` and
-- found by `Q`. `soft_delete` and `delete` answer with the number of registers that they affected,
-- if the driver says it.
pub record Table (S M C D Q : Type 0) : Type 0 where
  pub create_save : C → Exec S M
  pub find_one : Q → Exec S (Option M)
  pub find : Q → Exec S (List M)
  pub find_and_count : Q → Exec S (List M × ℕ)
  pub count : Q → Exec S ℕ
  pub update : List String → D → Exec S (Unit {0})
  pub soft_delete : List String → Exec S (Option ℕ)
  pub delete : List String → Exec S (Option ℕ)

-- `resourceMapper`
pub record Mapper (M E C : Type 0) : Type 0 where
  pub to_domain_entity : M → Result E
  pub to_database_entity : E → C

-- `PaginationInterface`
pub record ListPage (E : Type 0) : Type 0 where
  pub content : List E
  pub page_number : Decimal
  pub page_size : ℕ
  pub total_pages : Option Decimal
  pub total_items : ℕ

-- `catch (error) { throw this.exceptions.internal(error) }`
unfoldable pub or_internal : {S A : Type 0} → Exec S A → Exec S A
or_internal m = try_catch m (λ e. fail internal (as_error e))

-- `array.map(mapper)` with a mapper that may throw.
abbrev pub map_result : {A B : Type 0} → (A → Result B) → List A → Result (List B)
map_result f [] = ok []
map_result f (x ∷ xs) = bind_result (f x) λ y. bind_result (map_result f xs) λ ys. ok (y ∷ ys)

-- `if (!result) return null; return mapper(result)`
abbrev pub map_found : {A B : Type 0} → (A → Result B) → Option A → Result (Option B)
map_found f none = ok none
map_found f (some a) = bind_result (f a) λ b. ok (some b)

-- `!!result?.affected` and `Number(result?.affected ?? 0)`
abbrev pub any_affected : Option ℕ → Bool
any_affected affected = not (eqb (or_else affected 0) 0)

-- The page that `list` answers with.
abbrev pub list_page : {E : Type 0} → List E → ℕ → Option Decimal → Option Decimal → ListPage E
list_page content n limit page = record {
  content = content;
  page_number = or_else page (natural 0);
  page_size = length content;
  total_pages = total_pages n limit;
  total_items = n;
}

module _ {S M E C D Q : Type 0} (table : Table S M C D Q) (mapper : Mapper M E C) where
  -- `create`
  unfoldable pub create : E → Exec S E
  create entity = or_internal (do
    saved ← table.create_save (mapper.to_database_entity entity)
    lift (mapper.to_domain_entity saved))

  -- `findOne`, and `getById` with the query by identifier.
  unfoldable pub find_one : Q → Exec S (Option E)
  find_one query =
      or_internal (do found ← table.find_one query; lift (map_found mapper.to_domain_entity found))

  -- `findAll`
  unfoldable pub find_all : Q → Exec S (List E)
  find_all query =
      or_internal (do found ← table.find query; lift (map_result mapper.to_domain_entity found))

  -- `update`, given the query by identifier.
  unfoldable pub update : String → Q → D → Exec S (Option E)
  update id query values = or_internal (do
    table.update (id ∷ []) values
    found ← table.find_one query
    lift (map_found mapper.to_domain_entity found))

  -- `list`, given the query that `buildParams` made.
  unfoldable pub list : Q → Option Decimal → Option Decimal → Exec S (ListPage E)
  unfolding total_pages
  list query limit page = or_internal (do
    (rows, n) ← table.find_and_count query
    content ← lift (map_result mapper.to_domain_entity rows)
    pure (list_page content n limit page))

  -- `count`
  unfoldable pub count : Q → Exec S ℕ
  count query = or_internal (table.count query)

  -- `deleteOne`
  unfoldable pub delete_one : String → Bool → Exec S Bool
  delete_one id soft = or_internal (do
    affected ← if soft then table.soft_delete (id ∷ []) else table.delete (id ∷ [])
    pure (any_affected affected))

  -- `deleteMany`
  unfoldable pub delete_many : List String → Bool → Exec S ℕ
  delete_many ids soft = or_internal (do
    affected ← if soft then table.soft_delete ids else table.delete ids
    pure (or_else affected 0))
