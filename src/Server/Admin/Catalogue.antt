-- ===== src/Server/Admin/Catalogue.antt =====
-- What `CreateBread` answers and `GetBreadById` reads then, and what `UpdateBread` writes.
use bakery_go.Common.{◌⊎◌, inl, inr, some, ◌≡◌, ◌∙◌}
use bakery_go.Data.Types.{Bread}
use bakery_go.Data.Db.{Tables, Db, Result, ok, err}
use bakery_go.Data.Db.Hoare.{Holds, Holds-mono}
use bakery_go.Data.Breads
use bakery_go.Data.Breads.{bread_by_id, change_bread, rewritten, checked_breads}
use bakery_go.Data.Breads.Rewriting.{Rewritten, update_bread-Rewritten}
use bakery_go.Server.Shop.Pricing.{get_bread_by_id-Holds}
use bakery_go.Proto
use bakery_go.Proto.{UpdateBreadRequest}
use bakery_go.Server.Shop.{internal, Code, Reply, replied, fails}
use bakery_go.Server.Admin.{updated_bread, then_read, update_bread, one_bread, get_bread_by_id}

module _ {F P : Type 0} where
  -- The reply for a bread, or the code of an error, and the tables as they were.
  abbrev pub Shows : Code → Proto.Bread F → Tables F P → Reply (Proto.Bread F) × Db F P → Type 0
  Shows c b t (replied b', d) = (b' ≡ b) × (d.tables ≡ t)
  Shows c b t (fails c', d) = (c' ≡ c) × (d.tables ≡ t)

  -- The UPDATE is done, or, after an error, it may not be.
  abbrev pub Written : UpdateBreadRequest F → Tables F P → Reply (Proto.Bread F) × Db F P → Type 0
  Written req t (replied b, d) = Rewritten (updated_bread req) t d.tables
  Written req t (fails c, d) = (d.tables ≡ t) ⊎ Rewritten (updated_bread req) t d.tables

  one_bread-Written :
      (req : UpdateBreadRequest F) (c : Code) (t t1 : Tables F P) (x : Result (Bread F) × Db F P)
      → Rewritten (updated_bread req) t t1
      → Holds (λ _ t'. t' ≡ t1) (λ t'. t' ≡ t1) x
      → Written req t (one_bread c x)
  one_bread-Written req c t t1 (ok b, d) w h = h ∙ w
  one_bread-Written req c t t1 (err e, d) w h = inr (h ∙ w)

  then_read-Written :
      (req : UpdateBreadRequest F) (t : Tables F P) (x : Result (Unit {0}) × Db F P)
      → Holds (λ _ t'. Rewritten (updated_bread req) t t') (λ t'. t' ≡ t) x
      → Written req t (then_read req.id x)
  then_read-Written req t (err e, d) h = inl h
  then_read-Written req t (ok y, d) h =
      one_bread-Written req internal t d.tables (Breads.get_bread_by_id req.id d) h (
        Holds-mono (λ b t'. (bread_by_id req.id d.tables.breads ≡ some b) × (t' ≡ d.tables))
          (λ t'. t' ≡ d.tables) (λ _ t'. t' ≡ d.tables) (λ t'. t' ≡ d.tables) (λ b t' k. k.1)
          (λ t' k. k) (Breads.get_bread_by_id req.id d) (get_bread_by_id-Holds req.id d))

  -- UpdateBread writes the row of the id, also if the bread cannot be read again then.
  pub update_bread-Written :
      (req : UpdateBreadRequest F) (d : Db F P) → Written req d.tables (update_bread req d)
  unfolding update_bread
  update_bread-Written req d =
      then_read-Written req d.tables (Breads.update_bread (updated_bread req) d)
        (update_bread-Rewritten (updated_bread req) d)
