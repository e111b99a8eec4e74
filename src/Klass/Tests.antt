-- ===== src/Klass/Tests.antt =====
-- `any`, a class 1 with the field "a", and a class 2 over it with the fields "a" and "b".
use koala_lang_pre.Prelude.{bytes_eq, ℕ, ◌<◌, ◌≡◌, refl, some, List, [], ◌∷◌, arith}
use koala_lang_pre.Klass.{
  MNode, LroNode, Classes, var_kind, find_mnode, insert_mnode, lro_find, add_line, add_bases,
  lro_build, init_klass, add_field, add_member, index_of, strip_super, search, search_from, get_m,
  place_of, field_index,
}
use koala_lang_pre.Klass.Layout.{IsLaidOut, init_klass-IsLaidOut, add_field-IsLaidOut}
use koala_lang_pre.Klass.Fields.{
  IsFielded, field_index-bounded, get_m-apart, add_field-IsFielded, init_klass-IsFielded,
}

program : Unit {0}
unfolding bytes_eq find_mnode insert_mnode lro_find add_line add_bases lro_build init_klass
    add_field add_member index_of strip_super search search_from get_m place_of field_index
program = tt

abbrev a : List ℕ
a = b'a' ∷ []

abbrev b : List ℕ
b = b'b' ∷ []

abbrev super_a : List ℕ
super_a = b's' ∷ b'u' ∷ b'p' ∷ b'e' ∷ b'r' ∷ b'.' ∷ a

abbrev cleared : Classes
cleared k = record { nrvars = 0; totalvars = 0; lro = []; mtbl = [] }

-- After each call.
abbrev with_base : Classes
with_base = init_klass cleared 1 []

abbrev with_field : Classes
with_field = add_field with_base 1 a

abbrev with_derived : Classes
with_derived = add_field (add_field (init_klass with_field 2 (1 ∷ [])) 2 a) 2 b

derived_runs : (with_derived 2).totalvars ≡ 3
unfolding program
derived_runs = refl

own_runs : field_index with_derived 2 2 a ≡ some 1
unfolding program
own_runs = refl

super_runs : field_index with_derived 2 2 super_a ≡ some 0
unfolding program
super_runs = refl

cleared-IsFielded : IsFielded cleared
unfolding program IsFielded
cleared-IsFielded k name m h var = absurd (ground arith)

with_base-IsLaidOut : IsLaidOut with_base 1
with_base-IsLaidOut = init_klass-IsLaidOut cleared 1 [] refl refl refl

with_field-IsLaidOut : IsLaidOut with_field 1
with_field-IsLaidOut = add_field-IsLaidOut with_base 1 a with_base-IsLaidOut

init_klass-IsLaidOut_example : IsLaidOut with_base 1
init_klass-IsLaidOut_example = init_klass-IsLaidOut cleared 1 [] refl refl refl

with_field-IsFielded : IsFielded with_field
with_field-IsFielded =
    add_field-IsFielded with_base 1 a (init_klass-IsFielded cleared 1 [] cleared-IsFielded)

field_index-bounded_example : 0 < (with_field 1).totalvars
field_index-bounded_example =
    field_index-bounded with_field 1 1 a 0 with_field-IsLaidOut with_field-IsFielded
      (unfold program in refl)

with_derived-IsFielded : IsFielded with_derived
with_derived-IsFielded =
    add_field-IsFielded _ 2 b
      (add_field-IsFielded _ 2 a (init_klass-IsFielded with_field 2 (1 ∷ []) with_field-IsFielded))

with_derived-IsLaidOut : IsLaidOut with_derived 2
with_derived-IsLaidOut = add_field-IsLaidOut _ 2 b (
    add_field-IsLaidOut _ 2 a (
      init_klass-IsLaidOut with_field 2 (1 ∷ []) refl (unfold program in refl)
        (unfold program in refl)))

abbrev base_node : LroNode
base_node = record { klazz = 1; offset = 0 }

abbrev base_field : MNode
base_field = record { name = a; kind = var_kind; offset = 0 }

get_m-apart_example : (base_node ≡ base_node) × (base_field.offset ≡ base_field.offset)
get_m-apart_example =
    get_m-apart with_derived 2 1 2 a super_a base_node base_node base_field base_field
      with_derived-IsLaidOut with_derived-IsFielded (unfold program in refl)
      (unfold program in refl) refl refl refl
