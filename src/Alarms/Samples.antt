-- ===== src/Alarms/Samples.antt =====
-- The first half of `HandleTelemetryReceived`: the maps of rules and mappings, and the samples that
-- the points of one message add up to (backend/internal/alarms/application/service.go).
use microgrid_cloud.Prelude.{
  ℕ, String, ◌+++◌, List, [], ◌∷◌, ◌++◌, ◌||◌, Option, none, some, ◌==◌, if◌then◌else◌, ltb,
  is_zero, entry, assign, Float64,
}
use microgrid_cloud.Alarms.Domain.{AlarmRule, TelemetryPoint, TelemetryReceived, PointMapping}

pub record Sample (V : Type 0) : Type 0 where
  pub value : V
  pub at : ℕ

-- The two maps of point mappings.
pub record Mappings (V : Type 0) : Type 0 where
  pub by_device : List (String × PointMapping V)
  pub by_station : List (String × PointMapping V)

abbrev pub or_else {ℓ} : {A : Type ℓ} → Option A → A → A
or_else none d = d
or_else (some a) d = a

module _ {V : Type 0} where
  -- `rulesBySemantic[rule.Semantic] = append(...)`, over the rules in their order.
  unfoldable pub rules_by_semantic :
      List (String × List (AlarmRule V)) → List (AlarmRule V) → List (String × List (AlarmRule V))
  rules_by_semantic m [] = m
  rules_by_semantic m (r ∷ rs) =
      rules_by_semantic (assign m r.semantic (or_else (entry m r.semantic) [] ++ r ∷ [])) rs

  -- One turn of the loop that fills `mappingByDevice` and `mappingByStation`.
  add_mapping : Mappings V → PointMapping V → Mappings V
  add_mapping ms m =
      if m.point_key == "" || m.semantic == ""
      then ms
      else if m.device_id == ""
      then record ms { by_station = assign ms.by_station m.point_key m }
      else record ms { by_device = assign ms.by_device (m.device_id +++ "|" +++ m.point_key) m }

  unfoldable pub index_mappings : Mappings V → List (PointMapping V) → Mappings V
  unfolding add_mapping
  index_mappings ms [] = ms
  index_mappings ms (m ∷ rest) = index_mappings (add_mapping ms m) rest

  -- `resolveMapping`: the device's own mapping first, then the station's.
  unfoldable pub resolve_mapping : Mappings V → String → String → Option (PointMapping V)
  resolve_mapping ms device_id point_key =
      if device_id == ""
      then entry ms.by_station point_key
      else elim (entry ms.by_device (device_id +++ "|" +++ point_key)) [
        | some m ↦ some m
        | none ↦ entry ms.by_station point_key
      ]

module _ {V : Type 0} ⦃f : Float64 V⦄ where
  abbrev no_sample : Sample V
  no_sample = record { value = f.nil; at = 0 }

  -- The sample of a semantic after one more point: the values add up, the latest time stands.
  unfoldable pub merge_sample : Sample V → V → ℕ → Sample V
  merge_sample existing value at = record {
    value = f.add existing.value value;
    at = if is_zero existing.at || ltb existing.at at then at else existing.at;
  }

  add_point :
      Mappings V
      → TelemetryReceived V
      → List (String × Sample V)
      → TelemetryPoint V
      → List (String × Sample V)
  unfolding merge_sample
  add_point ms evt samples p = elim (resolve_mapping ms evt.device_id p.point_key) [
    | none ↦ samples
    | some m ↦ assign samples m.semantic (
        merge_sample (or_else (entry samples m.semantic) no_sample) (f.mul p.value m.factor)
          (if is_zero p.ts then evt.occurred_at else p.ts))
  ]

  unfoldable pub collect_samples :
      Mappings V
      → TelemetryReceived V
      → List (String × Sample V)
      → List (TelemetryPoint V)
      → List (String × Sample V)
  unfolding add_point
  collect_samples ms evt samples [] = samples
  collect_samples ms evt samples (p ∷ ps) = collect_samples ms evt (add_point ms evt samples p) ps
