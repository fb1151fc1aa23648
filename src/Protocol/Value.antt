-- ===== src/Protocol/Value.antt =====
-- `FieldValue` with its derived equality. A float is its IEEE 754 bit pattern, so that `==` can be
-- what it is in the source: not reflexive at NaN, and true of the two zeros.
use tx2_link.Common.{
  ℕ, suc, ◌%◌, ◌^◌, String, Bool, true, false, not, ◌&&◌, ◌||◌, Option, none, some, List, [], ◌∷◌,
  ltb, ◌==◌, if◌then◌else◌,
}
use tx2_link.Common.Int.{ℤ, eq_ℤ}
use text.Mathlib.Text.{◌==◌ as str_eq}

-- The floats of `width` bits with `quiet` the least pattern above infinity, the sign bit cut off.
abbrev float_eq : ℕ → ℕ → ℕ → ℕ → Bool
float_eq sign infinity a b =
    not (ltb infinity (a % sign))
    && not (ltb infinity (b % sign))
    && (a == b || (a % sign == 0 && b % sign == 0))

-- `==` on f32 and on f64
unfoldable pub eq_f32 : ℕ → ℕ → Bool
eq_f32 = float_eq (2 ^ 31) 0x7f80_0000

unfoldable pub eq_f64 : ℕ → ℕ → Bool
eq_f64 = float_eq (2 ^ 63) 0x7ff0_0000_0000_0000

unfoldable pub bytes_eq : List ℕ → List ℕ → Bool
bytes_eq [] [] = true
bytes_eq (x ∷ xs) (y ∷ ys) = x == y && bytes_eq xs ys
bytes_eq _ _ = false

mutual
  pub data FieldValue : Type 0 where
    null : FieldValue
    bool : Bool → FieldValue
    u8 u16 u32 u64 : ℕ → FieldValue
    i8 i16 i32 i64 : ℤ → FieldValue
    f32 f64 : ℕ → FieldValue
    string : String → FieldValue
    bytes : List ℕ → FieldValue
    array : Values → FieldValue
    map : Entries → FieldValue

  -- `Vec<FieldValue>`
  pub data Values : Type 0 where
    nil : Values
    cons : FieldValue → Values → Values

  -- `HashMap<String, FieldValue>`, in its order of iteration
  pub data Entries : Type 0 where
    end : Entries
    entry : String → FieldValue → Entries → Entries

unfoldable pub lookup_entry : String → Entries → Option FieldValue
lookup_entry k end = none
lookup_entry k (entry j v es) = if str_eq j k then some v else lookup_entry k es

unfoldable pub count_entries : Entries → ℕ
count_entries end = 0
count_entries (entry j v es) = suc (count_entries es)

abbrev bool_eq : Bool → Bool → Bool
bool_eq true b = b
bool_eq false b = not b

-- The derived `PartialEq`: maps are equal if they are as large and each key of the first has an
-- equal value in the second.
unfoldable mutual
  unfolding eq_f32 eq_f64 bytes_eq lookup_entry count_entries eq_ℤ

  pub field_value_eq : FieldValue → FieldValue → Bool
  field_value_eq null null = true
  field_value_eq (bool a) (bool b) = bool_eq a b
  field_value_eq (u8 a) (u8 b) = a == b
  field_value_eq (u16 a) (u16 b) = a == b
  field_value_eq (u32 a) (u32 b) = a == b
  field_value_eq (u64 a) (u64 b) = a == b
  field_value_eq (i8 a) (i8 b) = eq_ℤ a b
  field_value_eq (i16 a) (i16 b) = eq_ℤ a b
  field_value_eq (i32 a) (i32 b) = eq_ℤ a b
  field_value_eq (i64 a) (i64 b) = eq_ℤ a b
  field_value_eq (f32 a) (f32 b) = eq_f32 a b
  field_value_eq (f64 a) (f64 b) = eq_f64 a b
  field_value_eq (string a) (string b) = str_eq a b
  field_value_eq (bytes a) (bytes b) = bytes_eq a b
  field_value_eq (array a) (array b) = values_eq a b
  field_value_eq (map a) (map b) = count_entries a == count_entries b && entries_within a b
  field_value_eq _ _ = false

  pub values_eq : Values → Values → Bool
  values_eq nil nil = true
  values_eq (cons v vs) (cons w ws) = field_value_eq v w && values_eq vs ws
  values_eq _ _ = false

  pub entries_within : Entries → Entries → Bool
  entries_within end b = true
  entries_within (entry k v es) b =
      (elim (lookup_entry k b) [ none ↦ false | some w ↦ field_value_eq v w ])
      && entries_within es b
