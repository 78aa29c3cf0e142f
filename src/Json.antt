-- ===== src/Json.antt =====
-- The values that json.loads returns. A list inside a value has a type of its own, with a function
-- to `List`; an object is the list of its items, in order.
use adaptive_gateway.Prelude.{Bool, [], ◌∷◌}
use adaptive_gateway.Prelude.Texts.{Text}
use adaptive_gateway.Prelude.Dicts.{Dict}
use adaptive_gateway.Prelude.Ints.{ℤ}

mutual
  pub data Json (F : Type 0) : Type 0 where
    null : Json F
    bool : Bool → Json F
    int : ℤ → Json F
    real : F → Json F
    text : Text → Json F
    arr : Items F → Json F
    obj : Fields F → Json F

  pub data Items (F : Type 0) : Type 0 where
    nil : Items F
    cons : Json F → Items F → Items F

  pub data Fields (F : Type 0) : Type 0 where
    end : Fields F
    field : Text → Json F → Fields F → Fields F

-- The items of an object, as a dictionary.
abbrev pub dict_of : {F : Type 0} → Fields F → Dict (Json F)
dict_of end = []
dict_of (field k v fs) = (k, v) ∷ dict_of fs
