-- ===== src/Statements/Requests.antt =====
-- `Freeze` and `Void` of the statement service on a statement that is found, while no call of the
-- database fails, and on any failure.
use microgrid_cloud.Prelude.{
  ℕ, suc, String, List, false, ◌≡◌, refl, Option, some, Float64, find_first, find_first-update,
}
use microgrid_cloud.Prelude.Platform.{Platform}
use microgrid_cloud.Prelude.Exec.{calm, World, Result, ok, err, ◌>>=◌}
use microgrid_cloud.Statements.Domain.{
  StatementAggregate, StatementItem, StatementDb, StatementError, statement_is_voided, is_frozen,
  is_voided,
}
use microgrid_cloud.Statements.Repository.{
  has_id, get_by_id, list_items, items_of, mark_frozen, mark_voided, update_statement, sealed,
  revoked,
}
use microgrid_cloud.Statements.Service.{
  foreign, compute_snapshot_hash, freeze_draft, freeze_found, freeze, void_current, void_found,
  void, tenant_of,
}

module _ {V : Type 0} ⦃f : Float64 V⦄ (platform : Platform) (service_tenant : String)
    (snapshot : StatementAggregate V → List (StatementItem V) → Option String) (tenant id : String)
    (d : StatementDb V) (s : StatementAggregate V) (clock : ℕ → ℕ) (reads : ℕ) where
  -- Freezing a draft of one's tenant whose snapshot has a hash returns it frozen under that hash at
  -- the reading of the clock, and a second freeze answers the same and changes nothing.
  pub freeze_once :
      (hash : String)
      → find_first (has_id id) d.statements ≡ some s
      → foreign (tenant_of service_tenant tenant) s ≡ false
      → is_frozen s.status ≡ false
      → is_voided s.status ≡ false
      → compute_snapshot_hash platform service_tenant snapshot s (items_of id d) ≡ ok hash
      → let frozen_world =
          calm (update_statement id (sealed hash (clock reads)) d) clock (suc reads) in
        let answer : Result StatementError (StatementAggregate V) × World (StatementDb V) =
          (ok (sealed hash (clock reads) s), frozen_world) in
        (freeze platform service_tenant snapshot tenant id (calm d clock reads) ≡ answer)
        × (freeze platform service_tenant snapshot tenant id frozen_world ≡ answer)
  unfolding freeze get_by_id freeze_found freeze_draft list_items mark_frozen update_statement
      sealed foreign ◌>>=◌
  freeze_once hash e own nf nv h =
      let kept =
        find_first-update (has_id id) (sealed hash (clock reads)) d.statements s (λ x. refl) e in
      (rw (e, own, nf, nv, h) refl, rw (kept, own) refl)

  -- Voiding a statement of one's tenant that is not voided returns it voided with the reason, at the
  -- reading of the clock; a second voiding, with any reason, answers the same and changes nothing,
  -- and a freeze is refused and changes nothing.
  pub void_final :
      (reason reason' : String)
      → find_first (has_id id) d.statements ≡ some s
      → foreign (tenant_of service_tenant tenant) s ≡ false
      → is_voided s.status ≡ false
      → let voided_world =
          calm (update_statement id (revoked reason (clock reads)) d) clock (suc reads) in
        let answer : Result StatementError (StatementAggregate V) × World (StatementDb V) =
          (ok (revoked reason (clock reads) s), voided_world) in
        (void platform service_tenant snapshot tenant id reason (calm d clock reads) ≡ answer)
        × (void platform service_tenant snapshot tenant id reason' voided_world ≡ answer)
        × (freeze platform service_tenant snapshot tenant id voided_world
            ≡ (err statement_is_voided, voided_world))
  unfolding freeze void get_by_id freeze_found void_found void_current mark_voided update_statement
      revoked foreign ◌>>=◌
  void_final reason reason' e own nv =
      let kept =
        find_first-update (has_id id) (revoked reason (clock reads)) d.statements s (λ x. refl) e in
      (rw (e, own, nv) refl, rw (kept, own) refl, rw (kept, own) refl)
