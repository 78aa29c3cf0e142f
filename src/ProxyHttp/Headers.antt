-- ===== src/ProxyHttp/Headers.antt =====
-- Which headers `clean_headers` forwards.
use adaptive_gateway.Prelude.{
  ◌≡◌, refl, Bool, not, Option, none, some, [], ◌∷◌, arith, select, if◌then◌else◌, ◌∙◌,
}
use adaptive_gateway.Prelude.Texts.{Text, text_eq, text_eq_iff}
use adaptive_gateway.Prelude.Dicts.{Dict, lookup, insert, lookup-insert}
use adaptive_gateway.ProxyHttp.{clean_headers, updated, is_dropped}

-- The value of the last item with a key.
abbrev pub last_value : Text → Dict Text → Option Text → Option Text
last_value k [] found = found
last_value k ((j, v) ∷ d) found = last_value k d (if text_eq j k then some v else found)

lookup-updated :
    (k : Text) (d items : Dict Text) → lookup k (updated d items) ≡ last_value k items (lookup k d)
unfolding updated
lookup-updated k d [] = refl
lookup-updated k d ((j, v) ∷ items) =
    rw (lookup-updated k (insert j v d) items, lookup-insert j k v d)

last_value-select :
    (p : Text → Bool) (k : Text) (items : Dict Text) (found : Option Text)
    → last_value k (select (λ item. p item.0) items) found
      ≡ (if p k then last_value k items found else found)
last_value-select p k [] found = ground arith
last_value-select p k ((j, v) ∷ items) found = ground (
  arith,
  text_eq_iff j k,
  last_value-select p k items found,
  last_value-select p k items (some v),
)

if-not : (b : Bool) (x y : Option Text) → (if not b then y else x) ≡ (if b then x else y)
if-not b x y = ground arith

-- A header is forwarded exactly if it is neither a hop-by-hop header nor named by the Connection
-- header, in any case of letters, and then with the value of its last item.
pub lookup-clean_headers :
    (k : Text) (headers : Dict Text)
    → lookup k (clean_headers headers)
      ≡ (if is_dropped headers k then none else last_value k headers none)
unfolding clean_headers lookup
lookup-clean_headers k headers =
    let kept = select (λ item. not (is_dropped headers item.0)) headers in
    lookup-updated k [] kept
    ∙ last_value-select (λ j. not (is_dropped headers j)) k headers none
    ∙ if-not (is_dropped headers k) none (last_value k headers none)
