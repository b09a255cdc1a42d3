-- ===== src/Proto/ServiceDescriptor/Objects.antt =====
-- sdk/js/src/generated/proto.js: `verify`, `fromObject`, `toObject`, `toJSON` and `getTypeUrl` of
-- `ibridger.ServiceDescriptor`.
use ibridger.Common.{
  ◌≡◌, refl, Option, none, some, Bool, true, false, ◌||◌, List, All, [], ◌∷◌, if◌then◌else◌,
}
use ibridger.Common.Text.{Text, codes, text_dec}
use ibridger.Errors.{plain, Result, ok, err, ◌>>=◌}
use ibridger.Proto.Objects.{
  Value, nil, end, text, array, object, Options, Util, Source, instance_of, value, is_object_type,
  field, find, put_all, readable, convert, check, shown, blank, type_url, not_null, truthy,
  text_items, all_items, item_texts,
}
use ibridger.Proto.Objects.Finding.{
  or_else, found, find-put_all, Solid, has_text, shown-Solid, blank-Solid, filled, convert-shown,
  check-shown,
}
use ibridger.Proto.Objects.Laws.{IsUtil}
use ibridger.Proto.ServiceDescriptor.{ServiceDescriptor}

-- `ServiceDescriptor.getTypeUrl(prefix)`
unfoldable pub get_type_url : Option Text → Text
get_type_url prefix = type_url (codes "ibridger.ServiceDescriptor") prefix

-- `Array.isArray(v)` and the loop over the elements.
unfoldable pub verify_methods : (Value → Bool) → Option Value → Option Text
unfolding all_items
verify_methods test none = none
verify_methods test (some (array vs)) =
    if all_items test vs then none else some (codes "methods: string[] expected")
verify_methods test (some _) = some (codes "methods: array expected")

methods_array : (Value → Result Text) → Value → Result (List Text)
unfolding item_texts
methods_array f (array vs) = item_texts f vs
methods_array f _ = err (plain (codes ".ibridger.ServiceDescriptor.methods: array expected"))

-- `if (object.methods) …`
unfoldable pub read_methods : (Value → Result Text) → Option Value → Result (List Text)
unfolding methods_array truthy
read_methods f none = ok []
read_methods f (some v) = if truthy v then methods_array f v else ok []

-- `if (message.methods && message.methods.length) …`
unfoldable pub shown_methods : List Text → Option Value
unfolding text_items
shown_methods [] = none
shown_methods (t ∷ ts) = some (array (text_items (t ∷ ts)))

module _ (u : Util) where
  -- `ServiceDescriptor.verify(message)`
  unfoldable pub verify : Value → Option Text
  unfolding is_object_type field check verify_methods
  verify v =
      if is_object_type v
      then check u.is_string (codes "name: string expected") (field (codes "name") v)
          (verify_methods u.is_string (field (codes "methods") v))
      else some (codes "object expected")

  -- `ServiceDescriptor.fromObject(object)`
  unfoldable pub from_object : Source ServiceDescriptor → Result ServiceDescriptor
  unfolding readable field convert read_methods
  from_object (instance_of m) = ok m
  from_object (value v) = do
    _ ← readable (codes "name") v
    name ← convert u.to_text (field (codes "name") v)
    methods ← read_methods u.to_text (field (codes "methods") v)
    ok (record { name = name; methods = methods })

  -- The assignments of `toObject`: defaults, then what the message has.
  abbrev pub assignments : Options → ServiceDescriptor → List (Text × Option Value)
  assignments o m =
      (codes "methods", blank (o.arrays || o.defaults) (array nil))
      ∷ (codes "name", blank o.defaults (text []))
      ∷ (codes "name", shown text m.name)
      ∷ (codes "methods", shown_methods m.methods)
      ∷ []

  -- `ServiceDescriptor.toObject(message, options)`
  unfoldable pub to_object : Options → ServiceDescriptor → Value
  unfolding shown blank put_all shown_methods
  to_object o m = object (put_all (assignments o m) end)

  -- `message.toJSON()`, with protobufjs's `toJSONOptions`
  unfoldable pub to_json : ServiceDescriptor → Value
  unfolding to_object
  to_json m = to_object u.json_options m

-- The message with the defaults that the options put in the place of absent fields.
abbrev pub with_defaults : Options → ServiceDescriptor → ServiceDescriptor
with_defaults o m = record { name = filled o.defaults [] m.name; methods = m.methods }

shown_methods-Solid : (ts : List Text) → Solid (shown_methods ts)
unfolding shown_methods not_null
shown_methods-Solid [] = tt
shown_methods-Solid (t ∷ ts) = refl

module _ (u : Util) (laws : IsUtil u) where
  item_texts-text_items : (ts : List Text) → item_texts u.to_text (text_items ts) ≡ ok ts
  unfolding item_texts text_items
  item_texts-text_items [] = refl
  item_texts-text_items (t ∷ ts) = rw (laws.to_text-text t, item_texts-text_items ts) refl

  all_items-text_items : (ts : List Text) → all_items u.is_string (text_items ts) ≡ true
  unfolding all_items text_items
  all_items-text_items [] = refl
  all_items-text_items (t ∷ ts) = rw (laws.is_string-text t, all_items-text_items ts) refl

  read_methods-shown :
      (d : Bool) (ts : List Text)
      → read_methods u.to_text (or_else (shown_methods ts) (or_else (blank d (array nil)) none))
        ≡ ok ts
  unfolding read_methods shown_methods blank item_texts
  read_methods-shown true [] = refl
  read_methods-shown false [] = refl
  read_methods-shown d (t ∷ ts) = unfold truthy methods_array in item_texts-text_items (t ∷ ts)

  verify_methods-shown :
      (d : Bool) (ts : List Text)
      → verify_methods u.is_string (or_else (shown_methods ts) (or_else (blank d (array nil)) none))
        ≡ none
  unfolding verify_methods shown_methods blank
  verify_methods-shown true [] = refl
  verify_methods-shown false [] = refl
  verify_methods-shown d (t ∷ ts) = rw (all_items-text_items (t ∷ ts), verify_methods) refl

module _ (u : Util) (laws : IsUtil u) (o : Options) (m : ServiceDescriptor) where
  solid : All (λ f. Solid f.1) (assignments u o m)
  unfolding not_null
  solid = (
    blank-Solid (o.arrays || o.defaults) _ refl,
    (
      blank-Solid o.defaults _ refl,
      (shown-Solid text m.name (λ x. refl), (shown_methods-Solid m.methods, tt)),
    ),
  )

  find_field :
      (key : Text) → find key (put_all (assignments u o m) end) ≡ found key (assignments u o m) none
  unfolding find
  find_field key = find-put_all key (assignments u o m) end solid

  -- Under the documented laws of `$util`, `ServiceDescriptor.fromObject` of what
  -- `ServiceDescriptor.toObject` makes, with any options, is the descriptor again, methods in
  -- order, with the default name in place of an absent one where the options ask for defaults.
  pub from_object-to_object_descriptor :
      from_object u (value (to_object u o m)) ≡ ok (with_defaults o m)
  unfolding from_object to_object field readable text_dec
  from_object-to_object_descriptor =
      rw
        (
          find_field (codes "name"),
          convert-shown u.to_text text (λ x. Unit {0}) o.defaults [] m.name
              (λ x h. laws.to_text-text x) tt (has_text m.name),
          find_field (codes "methods"),
          read_methods-shown u laws (o.arrays || o.defaults) m.methods,
        )
        refl

  pub verify-to_object_descriptor : verify u (to_object u o m) ≡ none
  unfolding verify to_object field is_object_type text_dec
  verify-to_object_descriptor =
      rw
        (
          find_field (codes "name"),
          find_field (codes "methods"),
          verify_methods-shown u laws (o.arrays || o.defaults) m.methods,
          check-shown u.is_string text o.defaults [] m.name (codes "name: string expected") none
              laws.is_string-text,
        )
        refl
