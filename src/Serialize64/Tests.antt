-- ===== src/Serialize64/Tests.antt =====
-- serialize64.cpp: concrete runs, and the theorems at concrete inputs.
use sdk.Prelude.{
  ◌≡◌, ◌≤◌, refl, arith, [], ◌∷◌, ◌++◌, All, IsByte, length, none, some, lt_wf, dec_lt,
}
use sdk.Serialize64.{serialize_loop, serialize, unserialize}
use sdk.Serialize64.RoundTrip.{unserialize-serialize, serialize_shape}

serialize_300 : serialize 300 ≡ 2 ∷ 44 ∷ 1 ∷ []
unfolding serialize serialize_loop lt_wf dec_lt
serialize_300 = refl

serialize_zero : serialize 0 ≡ 0 ∷ []
unfolding serialize serialize_loop lt_wf dec_lt
serialize_zero = refl

unserialize_long : unserialize (9 ∷ []) 20 ≡ none
unfolding unserialize
unserialize_long = refl

serialize_300_fits : length (serialize 300) ≤ 9
unfolding serialize serialize_loop lt_wf dec_lt
serialize_300_fits = omega arith

unserialize-serialize_example :
    unserialize (serialize 300 ++ (7 ∷ [])) 9 ≡ some (300, length (serialize 300))
unserialize-serialize_example =
    unserialize-serialize 300 9 (7 ∷ []) (omega arith) serialize_300_fits

serialize_shape_example :
    All IsByte (serialize 300) × (1 ≤ length (serialize 300)) × (length (serialize 300) ≤ 9)
serialize_shape_example = serialize_shape 300 (omega arith)
