-- ===== src/Examples/Builders.antt =====
-- Sort builders.
use sqlx_data.Prelude.{◌≡◌, refl, codes, some}
use sqlx_data.Error.{ok}
use sqlx_data.Sorting
use sqlx_data.Sorting.Tracking.{Made}
use sqlx_data.SortOrder.{SortDirection}
use sqlx_data.Params
use sqlx_data.Validation.Laws.{MadeSorts}
use sqlx_data.Builder.Root
use sqlx_data.Builder.Root.{ParamsBuilder, HasParams, root_params}
use sqlx_data.Builder.States.{safe}
use sqlx_data.Builder.Sorts
use sqlx_data.Builder.Sorts.{SortBuilder}
use sqlx_data.Builder.Sorts.Reached.{Reached, Reached-safe, Joins, done-Joins}

abbrev newest : SortBuilder ParamsBuilder safe
newest = Sorts.desc (codes "created") (Sorts.with_parent Root.new)

newest-Reached : Reached ParamsBuilder safe newest
newest-Reached = Reached.desc (codes "created") (Reached.start Root.new)

Reached-safe_example : Sorting.validate_fields newest.sorts ≡ ok tt
Reached-safe_example = Reached-safe newest newest-Reached

-- A root builder that has a key.
abbrev named : ParamsBuilder
named = record {
  params = record Params.default { sort_by = some (Sorting.asc (codes "name") Sorting.new) };
}

abbrev newest_named : SortBuilder ParamsBuilder safe
newest_named = Sorts.desc (codes "created") (Sorts.with_parent named)

newest_named-parent : newest_named.parent ≡ some named
unfolding Sorts.desc Sorts.with_parent
newest_named-parent = refl

named-MadeSorts : MadeSorts named.params.sort_by
unfolding Sorting.asc
named-MadeSorts = Made.sort_by (codes "name") SortDirection.asc Made.new

done-Joins_example :
    (parent' : ParamsBuilder) × (Sorts.done newest_named ≡ some parent')
    × Joins newest_named.sorts named.params parent'.params
done-Joins_example =
    done-Joins newest_named named (Reached.desc (codes "created") (Reached.start named))
      newest_named-parent named-MadeSorts
