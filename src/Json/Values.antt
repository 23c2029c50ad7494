-- ===== src/Json/Values.antt =====
-- JSON values as the engine receives them, and `storeobject` on them.
pub mod Store
pub mod Exact
pub mod Ends
use sdk.Prelude.{
  ℕ, zero, suc, ◌+◌, ◌≡◌, List, [], ◌∷◌, ◌++◌, Bool, true, false, not, ◌&&◌, ◌||◌, ◌==◌, All,
}
use sdk.Json.{is_digit}

-- A string is given by the characters between its quotes, a number by its characters.
mutual
  pub data Value : Type 0 where
    str : List ℕ → Value
    num : ℕ → List ℕ → Value
    empty_array : Value
    array : Value → Elements → Value
    empty_object : Value
    object : List ℕ → Value → Members → Value

  pub data Elements : Type 0 where
    elements_end : Elements
    element : Value → Elements → Elements

  pub data Members : Type 0 where
    members_end : Members
    member : List ℕ → Value → Members → Members

-- A quoted string in front of `rest`.
abbrev pub quoted : List ℕ → List ℕ → List ℕ
quoted s rest = b'"' ∷ (s ++ (b'"' ∷ rest))

-- The text of a value, in front of `rest`.
unfoldable mutual
  pub print : Value → List ℕ → List ℕ
  print (str s) rest = quoted s rest
  print (num c cs) rest = c ∷ (cs ++ rest)
  print empty_array rest = b'[' ∷ b']' ∷ rest
  print (array v vs) rest = b'[' ∷ print v (print_elements vs rest)
  print empty_object rest = b'{' ∷ b'}' ∷ rest
  print (object name v ms) rest = b'{' ∷ quoted name (b':' ∷ print v (print_members ms rest))

  pub print_elements : Elements → List ℕ → List ℕ
  print_elements elements_end rest = b']' ∷ rest
  print_elements (element v vs) rest = b',' ∷ print v (print_elements vs rest)

  pub print_members : Members → List ℕ → List ℕ
  print_members members_end rest = b'}' ∷ rest
  print_members (member name v ms) rest =
      b',' ∷ quoted name (b':' ∷ print v (print_members ms rest))

-- The characters of a string hold no NUL, no quote without a backslash and no lone backslash at the end.
abbrev pub is_body : Bool → List ℕ → Bool
is_body escaped [] = not escaped
is_body escaped (c ∷ cs) =
    not (c == 0) && (escaped || not (c == b'"')) && is_body (c == 92 && not escaped) cs

abbrev pub IsNumber : ℕ → List ℕ → Type 0
IsNumber c cs =
    ((is_digit c || c == b'-' || c == b'.') ≡ true)
    × All (λ d. (is_digit d || d == b'.' || d == b'e' || d == b'E') ≡ true) cs

abbrev mutual
  pub IsValid : Value → Type 0
  IsValid (str s) = is_body false s ≡ true
  IsValid (num c cs) = IsNumber c cs
  IsValid empty_array = Unit {0}
  IsValid (array v vs) = IsValid v × AreValid vs
  IsValid empty_object = Unit {0}
  IsValid (object name v ms) = (is_body false name ≡ true) × IsValid v × HaveValid ms

  pub AreValid : Elements → Type 0
  AreValid elements_end = Unit {0}
  AreValid (element v vs) = IsValid v × AreValid vs

  pub HaveValid : Members → Type 0
  HaveValid members_end = Unit {0}
  HaveValid (member name v ms) = (is_body false name ≡ true) × IsValid v × HaveValid ms

-- The fuel that takes a scan over a value and leaves `f`: one round for each token.
unfoldable mutual
  pub rounds : Value → ℕ → ℕ
  rounds (str s) f = suc f
  rounds (num c cs) f = suc f
  rounds empty_array f = suc (suc f)
  rounds (array v vs) f = suc (rounds v (rounds_elements vs f))
  rounds empty_object f = suc (suc f)
  rounds (object name v ms) f = suc (suc (suc (rounds v (rounds_members ms f))))

  pub rounds_elements : Elements → ℕ → ℕ
  rounds_elements elements_end f = suc f
  rounds_elements (element v vs) f = suc (rounds v (rounds_elements vs f))

  pub rounds_members : Members → ℕ → ℕ
  rounds_members members_end f = suc f
  rounds_members (member name v ms) f = suc (suc (suc (rounds v (rounds_members ms f))))
