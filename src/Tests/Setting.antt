-- ===== src/Tests/Setting.antt =====
-- The set-up for a plan and the digest at concrete inputs.
use capacity_planning_operat.Prelude.{
  ◌≡◌, ◌≤◌, refl, sym, List, [], ◌∷◌, Option, none, some, All, length, newest, arith,
}
use mathlib.Core.Option.{some-injective}
use capacity_planning_operat.Prelude.Int.{pos}
use capacity_planning_operat.Prelude.Text.{Str, bytes, trim_space}
use capacity_planning_operat.Metrics.{key_of, mock_client}
use capacity_planning_operat.Watcher.{Pvc, get_snapshot}
use capacity_planning_operat.Plan.Digest.{trim_for_annotation, length-trim_for_annotation}
use capacity_planning_operat.Plan.Setup.{list_each, list_scoped_pvcs, configure_watcher_for_plan}
use capacity_planning_operat.Plan.Setup.Scope.{
  IsScoped, list_scoped_pvcs-IsScoped, configure_watcher_for_plan-history,
}
use capacity_planning_operat.Tests.{shop, disk, claim, mock, tracking}
use capacity_planning_operat.Tests.Watching.{tracking-IsValid}
use capacity_planning_operat.Tests.Insights.{plan}

length-trim_for_annotation_example :
    length (trim_for_annotation (bytes "Top PVC growth trends: shop/data.") (pos 25)) ≤ 25
length-trim_for_annotation_example =
    length-trim_for_annotation (bytes "Top PVC growth trends: shop/data.") 25 (omega arith)

trims :
    trim_for_annotation (bytes " Top PVC growth trends: shop/data.") (pos 25)
    ≡ bytes "Top PVC growth trends:..."
unfolding trim_for_annotation trim_space
trims = refl

-- A server on which each namespace has one volume.
abbrev listing : Option Str → Option (List Pvc)
listing none = some []
listing (some ns) = some (record claim { namespace = ns } ∷ [])

listing-All :
    (ns : Str) (ps : List Pvc) → listing (some ns) ≡ some ps → All (λ p. p.namespace ≡ ns) ps
listing-All ns ps e =
    rw (sym (some-injective (record claim { namespace = ns } ∷ []) ps e)) (refl, tt)

list_scoped_pvcs-IsScoped_example :
    All (IsScoped (shop ∷ [])) (record claim { namespace = shop } ∷ [])
unfolding list_scoped_pvcs list_each
list_scoped_pvcs-IsScoped_example =
    list_scoped_pvcs-IsScoped listing listing-All shop [] (record claim { namespace = shop } ∷ [])
      refl

configure_watcher_for_plan-history_example :
    get_snapshot
      (configure_watcher_for_plan
        (λ url. mock_client mock)
        none
        (pos 0)
        (plan disk 5).spec
        tracking)
      (key_of shop disk)
    ≡ newest 720 (get_snapshot tracking (key_of shop disk))
configure_watcher_for_plan-history_example =
    configure_watcher_for_plan-history (λ url. mock_client mock) none (pos 0) (plan disk 5).spec
      tracking (key_of shop disk) tracking-IsValid
