-- ===== src/Merge/Samples.antt =====
-- Two small documents, their merge, and the theorems about it at these documents.
use snap_openstack.Prelude.{◌≡◌, refl, true, false, return, raise, attribute_error}
use snap_openstack.Value.{null, bool, str, dict, Fields, end, field, get_field, set_field, truthy}
use snap_openstack.Merge.{merge_key, merge_into, merge_value, merge_dict}
use snap_openstack.Merge.Overlay.{Overlaid, merge_dict-Overlaid}
use snap_openstack.Merge.Idempotence.{IsDocument}

abbrev defaults : Fields
defaults =
    field "channel" (str "2025.1/stable")
      (field "debug" (bool true) (field "proxy" (dict (field "http" (str "a") end)) end))

abbrev override : Fields
override =
    field "proxy" (dict (field "https" (str "b") (field "http" null end)))
      (field "debug" (bool false) (field "channel" (str "2026.1/edge") end))

abbrev merged : Fields
merged = field "channel" (str "2026.1/edge") (
    field "debug" (bool true)
      (field "proxy" (dict (field "http" (str "a") (field "https" (str "b") end))) end))

program : Unit {0}
unfolding merge_dict merge_value merge_into merge_key get_field set_field truthy IsDocument
program = tt

merge-override : merge_dict defaults override ≡ return merged
unfolding program
merge-override = refl

merge_mapping_into_text :
    merge_dict defaults (field "channel" (dict merged) end) ≡ raise attribute_error
unfolding program
merge_mapping_into_text = refl

merge_dict-Overlaid_example : Overlaid (dict defaults) (dict override) (dict merged)
unfolding program
merge_dict-Overlaid_example =
    merge_dict-Overlaid defaults override merged
      ((refl, (refl, (refl, tt))), (((refl, (refl, tt)), (tt, (tt, tt))), (tt, (tt, tt))))
      merge-override
