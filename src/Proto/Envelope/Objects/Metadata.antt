-- ===== src/Proto/Envelope/Objects/Metadata.antt =====
-- How `Envelope.fromObject` reads the metadata that `Envelope.toObject` makes.
use ibridger.Common.{
  ◌≡◌, refl, sym, ◌∙◌, ap, none, some, Bool, true, false, List, [], ◌∷◌, ◌++◌, append_assoc,
  append-nil, if_neg,
}
use ibridger.Common.Text.{Text, codes, text_dec}
use ibridger.Common.Assoc.{Fresh, Distinct}
use ibridger.Errors.{ok}
use ibridger.Proto.Objects.{
  text, object, Properties, end, property, Util, assign, blank, truthy, not_null, is_object_type,
}
use ibridger.Proto.Objects.Finding.{or_else, Solid}
use ibridger.Proto.Objects.Laws.{IsUtil}
use ibridger.Proto.Envelope.{set_property}
use ibridger.Proto.Envelope.Parts.{set_all}
use ibridger.Proto.Envelope.RoundTrip.{IsMap, NoProto, Fresh-middle, set_all-append}
use ibridger.Proto.Envelope.Objects.{
  property_entries, entries, read_entries, metadata_entries, read_metadata, metadata_properties,
  shown_metadata, all_texts, verify_metadata,
}

-- The object with these entries, in order.
abbrev text_properties : List (Text × Text) → Properties
text_properties [] = end
text_properties ((key, t) ∷ m) = property key (text t) (text_properties m)

assign-text_properties :
    (key t : Text) (m : List (Text × Text))
    → Fresh key m
    → assign key (text t) (text_properties m) ≡ text_properties (m ++ (key, t) ∷ [])
unfolding assign
assign-text_properties key t [] h = refl
assign-text_properties key t ((k, v) ∷ m) (ne, h) =
    if_neg (text_dec k key) ne _ _ ∙ ap (property k (text v)) (assign-text_properties key t m h)

metadata_properties-append :
    (md acc : List (Text × Text))
    → Distinct (acc ++ md)
    → NoProto md
    → metadata_properties md (text_properties acc) ≡ text_properties (acc ++ md)
unfolding metadata_properties
metadata_properties-append [] acc d n = ap text_properties (sym (append-nil acc))
metadata_properties-append ((k, v) ∷ md) acc d (n, ns) =
    ap (metadata_properties md) (
      if_neg (text_dec k (codes "__proto__")) n _ _
      ∙ assign-text_properties k v acc (Fresh-middle acc k v md d))
    ∙ metadata_properties-append md (acc ++ (k, v) ∷ []) (rw (append_assoc acc ((k, v) ∷ []) md) d)
        ns
    ∙ ap text_properties (append_assoc acc ((k, v) ∷ []) md)

shown_metadata-eq :
    (e : Text × Text) (md : List (Text × Text))
    → IsMap (e ∷ md)
    → shown_metadata (e ∷ md) ≡ some (object (text_properties (e ∷ md)))
unfolding shown_metadata
shown_metadata-eq e md (d, n) =
    ap (λ (ps : Properties). some (object ps)) (metadata_properties-append (e ∷ md) [] d n)

pub shown_metadata-Solid : (md : List (Text × Text)) → Solid (shown_metadata md)
unfolding shown_metadata not_null
shown_metadata-Solid [] = tt
shown_metadata-Solid (e ∷ md) = refl

module _ (u : Util) (laws : IsUtil u) where
  read_entries-text_properties :
      (md acc : List (Text × Text))
      → read_entries u.to_text (property_entries (text_properties md)) acc ≡ ok (set_all md acc)
  unfolding read_entries property_entries
  read_entries-text_properties [] acc = refl
  read_entries-text_properties ((key, t) ∷ md) acc =
      rw (laws.to_text-text t) (read_entries-text_properties md (set_property key t acc))

  pub read_metadata-shown :
      (d : Bool) (md : List (Text × Text))
      → IsMap md
      → read_metadata u.to_text (or_else (shown_metadata md) (or_else (blank d (object end)) none))
        ≡ ok md
  unfolding read_metadata metadata_entries truthy is_object_type entries blank
  read_metadata-shown true [] h = unfold shown_metadata read_entries property_entries in refl
  read_metadata-shown false [] h = unfold shown_metadata in refl
  read_metadata-shown d (e ∷ md) h =
      rw (shown_metadata-eq e md h)
        (read_entries-text_properties (e ∷ md) [] ∙ ap ok (set_all-append (e ∷ md) [] h.0 h.1))

  all_texts-text_properties :
      (md : List (Text × Text))
      → all_texts u.is_string (property_entries (text_properties md)) ≡ true
  unfolding all_texts property_entries
  all_texts-text_properties [] = refl
  all_texts-text_properties ((key, t) ∷ md) =
      rw (laws.is_string-text t, all_texts-text_properties md) refl

  pub verify_metadata-shown :
      (d : Bool) (md : List (Text × Text))
      → IsMap md
      → verify_metadata u (or_else (shown_metadata md) (or_else (blank d (object end)) none)) ≡ none
  unfolding verify_metadata entries blank
  verify_metadata-shown true [] h =
      unfold shown_metadata property_entries all_texts in rw (laws.is_object-object end) refl
  verify_metadata-shown false [] h = unfold shown_metadata in refl
  verify_metadata-shown d (e ∷ md) h =
      rw
        (
          shown_metadata-eq e md h,
          laws.is_object-object (text_properties (e ∷ md)),
          all_texts-text_properties (e ∷ md),
        )
        refl
