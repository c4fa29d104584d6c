-- ===== src/Statements/Calls.antt =====
-- Sequences of requests of the statement service, with the exports that the HTTP handler records.
use microgrid_cloud.Prelude.{
  ℕ, String, List, [], ◌∷◌, Bool, true, false, ◌≡◌, arith, Option, none, some, ltb, find_first,
  Float64,
}
use microgrid_cloud.Prelude.Platform.{Platform}
use microgrid_cloud.Prelude.Exec.{World, Keeps, Triple, pure, raise, lift}
use microgrid_cloud.Prelude.Exec.Rules.{
  keeps_rules, Keeps-now, Keeps-lift, Keeps-triple, Triple-bind, triple-Keeps, Triple-if,
  Triple-weaken, Triple-raise, Triple-pure,
}
use microgrid_cloud.Prelude.Tables.{Grows-refl}
use microgrid_cloud.Statements.Domain.{
  StatementStatus, StatementAggregate, StatementItem, StatementDb, tenant_mismatch,
  statement_is_voided, is_frozen, is_voided,
}
use microgrid_cloud.Statements.Repository.{has_id, record_export}
use microgrid_cloud.Statements.Service.{
  require, create_version, reuse, generate_for, generate, freeze_draft, freeze_found, freeze,
  void_current, void_found, void, get, list,
}
use microgrid_cloud.Statements.Invariant.{
  Valid, Moves, Moves-refl, Evolves, Tracks, rank, unfixed_of_found,
}
use microgrid_cloud.Statements.Safety.{
  statement_reads, create-Keeps, mark_voided-Keeps, record_export-Keeps, mark_frozen_run,
  get_by_id_run, Unfixed, list_items-Keeps,
}

-- The requests, each with the tenant of its context.
pub data Request : Type 0 where
  generates : String → String → String → String → Bool → Request
  freezes gets_one : String → String → Request
  voids : String → String → String → Request
  lists : String → String → String → String → Request
  exports : String → String → String → String → Request

module _ {V : Type 0} ⦃f : Float64 V⦄ (platform : Platform) (service_tenant : String)
    (snapshot : StatementAggregate V → List (StatementItem V) → Option String) where
  -- A request leaves the state that its method left, also where the method failed.
  unfoldable pub answer : Request → World (StatementDb V) → World (StatementDb V)
  answer (generates tenant station month category again) w =
      (generate platform service_tenant snapshot tenant station month category again w).1
  answer (freezes tenant id) w = (freeze platform service_tenant snapshot tenant id w).1
  answer (gets_one tenant id) w = (get platform service_tenant snapshot tenant id w).1
  answer (voids tenant id reason) w = (void platform service_tenant snapshot tenant id reason w).1
  answer (lists tenant station month category) w =
      (list platform service_tenant snapshot tenant station month category w).1
  answer (exports id format status path) w = (record_export platform id format status path w).1

  unfoldable pub answer_all : List Request → World (StatementDb V) → World (StatementDb V)
  unfolding answer
  answer_all [] w = w
  answer_all (r ∷ rs) w = answer_all rs (answer r w)

  module _ (earlier : List (StatementAggregate V)) where
    create_version-Keeps :
        (tenant station : String) (month : ℕ) (category : String)
        → Keeps
            (Tracks earlier)
            (create_version platform service_tenant snapshot tenant station month category)
    unfolding create_version
    create_version-Keeps tenant station month category =
        search (statement_reads, create-Keeps) depth 8

    reuse-Keeps :
        (tenant station : String) (month : ℕ) (category : String)
        (found : Option (StatementAggregate V))
        → Keeps
            (Tracks earlier)
            (reuse platform service_tenant snapshot tenant station month category found)
    unfolding reuse
    reuse-Keeps tenant station month category none =
        create_version-Keeps tenant station month category
    reuse-Keeps tenant station month category (some s) = search keeps_rules

    generate_for-Keeps :
        (tenant station : String) (month : ℕ) (category : String) (again : Bool)
        → Keeps
            (Tracks earlier)
            (generate_for platform service_tenant snapshot tenant station month category again)
    unfolding generate_for
    generate_for-Keeps tenant station month category true =
        create_version-Keeps tenant station month category
    generate_for-Keeps tenant station month category false = search (statement_reads, reuse-Keeps)

    generate-Keeps :
        (tenant station month category : String) (again : Bool)
        → Keeps
            (Tracks earlier)
            (generate platform service_tenant snapshot tenant station month category again)
    unfolding generate
    generate-Keeps tenant station month category again = search (keeps_rules, generate_for-Keeps)

    -- The statement that a lookup found is a draft, so no statement under its id is fixed.
    found-Unfixed :
        (id : String) (a : StatementAggregate V) (d : StatementDb V)
        → is_frozen a.status ≡ false
        → is_voided a.status ≡ false
        → Tracks earlier d × (find_first (has_id id) d.statements ≡ some a)
        → Unfixed earlier id d
    found-Unfixed id a d nf nv h =
        unfixed_of_found id d.statements a h.1 (fresh a.status nf nv) h.0.0
      where
        fresh :
            (s : StatementStatus)
            → is_frozen s ≡ false
            → is_voided s ≡ false
            → ltb 0 (rank s) ≡ false
        fresh s nf nv = ground arith

    freeze_draft_run :
        (id : String) (a : StatementAggregate V)
        → Triple
            (λ d. Tracks earlier d × Unfixed earlier id d)
            (freeze_draft platform service_tenant snapshot id a)
            (λ _. Tracks earlier)
            (Tracks earlier)
    unfolding freeze_draft
    freeze_draft_run id a =
        Triple-bind _ _ (triple-Keeps _ (list_items-Keeps _ id) (λ d h. h.0)) λ items.
          Triple-bind _ _ (triple-Keeps _ (Keeps-lift _) (λ d h. h.0)) λ hash.
            Triple-bind _ _ (triple-Keeps _ Keeps-now (λ d h. h.0))
              λ t. Triple-bind _ _ (mark_frozen_run earlier id hash t) λ _. Triple-pure _ (λ d h. h)

    freeze_found_run :
        (tenant id : String) (a : StatementAggregate V)
        → Triple
            (λ d. Tracks earlier d × (find_first (has_id id) d.statements ≡ some a))
            (freeze_found platform service_tenant snapshot tenant id a)
            (λ _. Tracks earlier)
            (Tracks earlier)
    unfolding freeze_found
    freeze_found_run tenant id a =
        Triple-if _ (raise tenant_mismatch) _ (λ _. Triple-raise _ (λ d h. h.0))
          λ _.
            Triple-if _ (pure a) _ (λ _. Triple-pure _ (λ d h. h.0))
              λ nf.
                Triple-if _ (raise statement_is_voided) _ (λ _. Triple-raise _ (λ d h. h.0))
                  λ nv.
                    Triple-weaken _ (λ d h. (h.0, found-Unfixed id a d nf nv h))
                      (freeze_draft_run id a)

    require_run :
        (id : String) (found : Option (StatementAggregate V))
        → Triple
            (λ d. Tracks earlier d × (find_first (has_id id) d.statements ≡ found))
            (lift (require found))
            (λ a d. Tracks earlier d × (find_first (has_id id) d.statements ≡ some a))
            (Tracks earlier)
    unfolding lift
    require_run id none = record { run = λ w h. h.0 }
    require_run id (some a) = record { run = λ w h. h }

    freeze-Keeps :
        (tenant id : String)
        → Keeps (Tracks earlier) (freeze platform service_tenant snapshot tenant id)
    unfolding freeze
    freeze-Keeps tenant id = Keeps-triple _ (
        Triple-bind _ _ (get_by_id_run earlier id)
          λ found. Triple-bind _ _ (require_run id found) λ a. freeze_found_run _ id a)

    void-Keeps :
        (tenant id reason : String)
        → Keeps (Tracks earlier) (void platform service_tenant snapshot tenant id reason)
    unfolding void void_found void_current
    void-Keeps tenant id reason = search (statement_reads, mark_voided-Keeps) depth 8

    get-Keeps :
        (tenant id : String)
        → Keeps (Tracks earlier) (get platform service_tenant snapshot tenant id)
    unfolding get
    get-Keeps tenant id = search statement_reads depth 8

    list-Keeps :
        (tenant station month category : String)
        → Keeps
            (Tracks earlier)
            (list platform service_tenant snapshot tenant station month category)
    unfolding list
    list-Keeps tenant station month category = search statement_reads

    answer-Keeps :
        (r : Request) (w : World (StatementDb V))
        → Tracks earlier w.db
        → Tracks earlier (answer r w).db
    unfolding answer
    answer-Keeps (generates tenant station month category again) w h =
        (generate-Keeps tenant station month category again).at w h
    answer-Keeps (freezes tenant id) w h = (freeze-Keeps tenant id).at w h
    answer-Keeps (gets_one tenant id) w h = (get-Keeps tenant id).at w h
    answer-Keeps (voids tenant id reason) w h = (void-Keeps tenant id reason).at w h
    answer-Keeps (lists tenant station month category) w h =
        (list-Keeps tenant station month category).at w h
    answer-Keeps (exports id format status path) w h =
        (record_export-Keeps earlier platform id format status path).at w h

    answer_all-Keeps :
        (rs : List Request) (w : World (StatementDb V))
        → Tracks earlier w.db
        → Tracks earlier (answer_all rs w).db
    unfolding answer_all
    answer_all-Keeps [] w h = h
    answer_all-Keeps (r ∷ rs) w h = answer_all-Keeps rs (answer r w) (answer-Keeps r w h)

  -- From a table in which no two statements have one id, or one version of one tenant, station,
  -- month and category, any sequence of generations, freezes, voidings, reads and exports, whichever
  -- of their database calls fail, leads to such a table again.
  pub answer_all-Valid :
      (rs : List Request) (w : World (StatementDb V))
      → Valid w.db.statements
      → Valid (answer_all rs w).db.statements
  answer_all-Valid rs w v =
      (answer_all-Keeps w.db.statements rs w (v, Grows-refl Moves Moves-refl w.db.statements)).0

  -- Over any such sequence from such a table, no statement is lost; its identity, version, totals and
  -- currency stay; its status never goes back from frozen to draft or from voided to either; and
  -- its snapshot hash does not change once it is frozen or voided.
  pub answer_all-Evolves :
      (rs : List Request) (w : World (StatementDb V))
      → Valid w.db.statements
      → Evolves w.db.statements (answer_all rs w).db.statements
  answer_all-Evolves rs w v =
      (answer_all-Keeps w.db.statements rs w (v, Grows-refl Moves Moves-refl w.db.statements)).1
