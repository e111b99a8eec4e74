-- ===== src/TypeDesc/Tests.antt =====
-- Descriptors on which the statements about src/typedesc.c are tried.
use koala_lang_pre.Prelude.{
  replicate, bytes_eq, ℕ, ◌≡◌, refl, Bool, true, false, some, List, [], ◌∷◌, ◌++◌, arith,
}
use koala_lang_pre.StringBuf.{available, round_up, expand, append, append_char, format}
use koala_lang_pre.TypeDesc.{
  TypeDesc, int, string, any, base, klass, proto, array, set, varg, nil, cons, find_kind, get_basic,
  append_dims, desc, desc_list, to_string, types_to_string, type_equal,
}
use koala_lang_pre.TypeDesc.Parse.{
  ok, stray, split_semicolon, find_dot, string_to_klass, split_brackets, parse_klass, parse_basic,
  parse, parse_list, parse_all,
}
use koala_lang_pre.TypeDesc.Print.{print, print_list}
use koala_lang_pre.TypeDesc.Pieces.{IsPrintable, IsPrintableList}
use koala_lang_pre.TypeDesc.Table.{
  insert_basics, init_typedesc, find_typedesc, intern, get, get_all, string_to_typedesc,
}
use koala_lang_pre.TypeDesc.Sound.{IsSound, Extends, init_typedesc-IsSound}
use koala_lang_pre.TypeDesc.Interning.{string_to_typedesc-print}
use koala_lang_pre.TypeDesc.Total.{Ends, parse-Ends}
use koala_lang_pre.TypeDesc.Equal.{parse-desc, type_equal_iff}

program : Unit {0}
unfolding available round_up expand append append_char format find_kind get_basic append_dims desc
    desc_list to_string types_to_string bytes_eq type_equal split_semicolon find_dot string_to_klass
    split_brackets parse_klass parse_basic parse parse_list parse_all print print_list IsPrintable
    IsPrintableList insert_basics init_typedesc find_typedesc intern get get_all string_to_typedesc
program = tt

abbrev plenty : ℕ → Bool
plenty n = true

-- A class, and a function type that returns a set of it.
abbrev tuple : TypeDesc
tuple = klass (b'l' ∷ b'g' ∷ []) (b'T' ∷ [])

abbrev handler : TypeDesc
handler = proto (cons (array 2 (base int)) (cons (varg (base any)) nil)) (cons (set tuple) nil)

tuple-IsPrintable : IsPrintable tuple
unfolding program
tuple-IsPrintable = ((refl, (refl, tt)), (refl, (refl, tt)), (refl, tt))

handler-IsPrintable : IsPrintable handler
unfolding program
handler-IsPrintable = (((omega arith, refl, tt), ((refl, tt), tt)), (tuple-IsPrintable, tt))

desc_runs :
    desc plenty handler
    ≡ b'P' ∷ b'[' ∷ b'[' ∷ b'i' ∷ b'.' ∷ b'.' ∷ b'.' ∷ b'A' ∷ b':' ∷ b'S' ∷ b'L' ∷ b'l' ∷ b'g'
      ∷ b'.' ∷ b'T' ∷ b';' ∷ b';' ∷ []
unfolding program
desc_runs = refl

to_string_runs :
    to_string (proto (cons (base int) (cons (base any) nil)) nil)
    ≡ b'f' ∷ b'u' ∷ b'n' ∷ b'c' ∷ b'(' ∷ b'i' ∷ b'n' ∷ b't' ∷ b',' ∷ b' ' ∷ b'a' ∷ b'n' ∷ b'y'
      ∷ b')' ∷ b' ' ∷ []
unfolding program
to_string_runs = refl

parse_runs :
    parse 40 0 false (b'[' ∷ b'[' ∷ b'[' ∷ b's' ∷ b'i' ∷ [])
    ≡ ok (array 3 (base string)) (b'i' ∷ [])
unfolding program
parse_runs = refl

-- A class name with no dot.
parse_stray : parse 40 0 false (b'L' ∷ b'T' ∷ b';' ∷ []) ≡ stray
unfolding program
parse_stray = refl

-- `any` is not equal to a class.
any_runs : type_equal plenty (base any) tuple ≡ false
unfolding program
any_runs = refl

-- Two classes with the same name and paths of 30 bytes, which the buffer drops from their strings: the
-- second is got as the first.
abbrev path_of : ℕ → TypeDesc
path_of c = klass (replicate 30 c) (b'T' ∷ [])

dropped_runs :
    string_to_typedesc plenty init_typedesc 200
      (print (proto (cons (path_of b'a') (cons (path_of b'b') nil)) nil))
    ≡ ok
        (
          init_typedesc
              ++ path_of b'a' ∷ proto (cons (path_of b'a') (cons (path_of b'a') nil)) nil ∷ [],
          proto (cons (path_of b'a') (cons (path_of b'a') nil)) nil,
        )
        []
unfolding program
dropped_runs = refl

-- Read twice, a descriptor enters the table once.
shared_runs :
    get plenty (get plenty init_typedesc handler).0 handler
    ≡ ((get plenty init_typedesc handler).0, handler)
unfolding program
shared_runs = refl

string_to_typedesc-print_example :
    (types' : List TypeDesc) × (string_to_typedesc plenty init_typedesc 70
        (print handler ++ b'i' ∷ [])
      ≡ ok (types', handler) (b'i' ∷ []))
    × IsSound plenty types'
    × Extends init_typedesc types'
    × (find_typedesc plenty types' (desc plenty handler) ≡ some handler)
string_to_typedesc-print_example =
    string_to_typedesc-print plenty (λ n. refl) handler init_typedesc 70 (b'i' ∷ [])
      (init_typedesc-IsSound plenty) handler-IsPrintable (unfold program in omega arith)
      (unfold program in omega arith)

parse-Ends_example : Ends 2 (parse 5 0 false (b'[' ∷ b's' ∷ []))
parse-Ends_example = parse-Ends 5 0 false (b'[' ∷ b's' ∷ []) (omega arith)

parse-desc_example : parse 61 0 false (desc plenty handler) ≡ ok handler []
parse-desc_example =
    parse-desc plenty (λ n. refl) handler 61 handler-IsPrintable (unfold program in omega arith)
      (omega arith)

type_equal_iff_example :
    (type_equal plenty handler (set tuple) ≡ true → handler ≡ set tuple)
    × (handler ≡ set tuple → type_equal plenty handler (set tuple) ≡ true)
type_equal_iff_example =
    type_equal_iff plenty (λ n. refl) handler (set tuple) handler-IsPrintable
      (unfold program in tuple-IsPrintable) (unfold program in omega arith)
      (unfold program in omega arith) refl refl
