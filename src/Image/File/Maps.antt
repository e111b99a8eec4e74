-- ===== src/Image/File/Maps.antt =====
-- The map items of a file: written behind the header, and read back.
use koala_lang_pre.Prelude.{
  ◌==◌, Bool-cases, length, ℕ, ◌+◌, ◌*◌, ◌%◌, ◌^◌, ◌≤◌, ◌<◌, ◌≡◌, refl, sym, ap, ◌∙◌, subst, inl,
  inr, some, List, [], ◌∷◌, ◌++◌, map, append_assoc, append-nil, arith,
}
use koala_lang_pre.AtomTable.{vector, size, push}
use koala_lang_pre.AtomTable.Laws.{vector-push}
use koala_lang_pre.Image.{Table, item_max}
use koala_lang_pre.Image.Items.{Item}
use koala_lang_pre.Image.Appends.{length-push}
use koala_lang_pre.Image.Format.{words_bytes, item_words, item_bytes, item_length}
use koala_lang_pre.Image.Format.Fits.{read_words-words_bytes}
use koala_lang_pre.Image.File.{item_map, items_bytes, image_bytes, lengths, items_offset}
use koala_lang_pre.Image.File.Input.{MapItem, append_maps, read_maps}
use koala_lang_pre.Image.File.Layout.{
  maps_at, maps_at-empty, maps_at-full, image_bytes-empty, length-image_bytes, AllTypes,
}

abbrev pub map_item : MapItem → Item
map_item (type, offset, size) = Item.map type offset size

pub length-append_maps :
    (maps : List MapItem) (t : Table) → length (append_maps maps t).items ≡ length t.items
unfolding append_maps
length-append_maps [] t = refl
length-append_maps ((k, o, s) ∷ maps) t =
    length-append_maps maps (push t item_map (Item.map k o s)) ∙ length-push t item_map _

pub vector-append_maps :
    (maps : List MapItem) (t : Table)
    → length t.items ≡ item_max
    → vector (append_maps maps t) item_map ≡ vector t item_map ++ map map_item maps
unfolding append_maps
vector-append_maps [] t wide = sym (append-nil _)
vector-append_maps ((k, o, s) ∷ maps) t wide =
    let d : Item = Item.map k o s in
    vector-append_maps maps (push t item_map d) (length-push t item_map d ∙ wide)
    ∙ ap (λ (ds : List Item). ds ++ map map_item maps)
        (vector-push t item_map d item_map (omega (arith, wide)))
    ∙ append_assoc (vector t item_map) (d ∷ []) (map map_item maps)

pub items_offset-maps_at :
    (t : Table) (types : List ℕ) (o p : ℕ)
    → items_offset t types o ≡ o + 12 * length (maps_at t types p)
unfolding items_offset maps_at
items_offset-maps_at t [] o p = omega arith
items_offset-maps_at t (type ∷ types) o p = elim (Bool-cases (size t type == 0)) [
  | inl e ↦ rw e (items_offset-maps_at t types o p)
  | inr e ↦
      let q = p + lengths (vector t type) in
      rw e (items_offset-maps_at t types (o + 12) q ∙ omega arith)
]

-- The numbers of the map items fit their words.
abbrev pub MapsFit : List MapItem → Type 0
MapsFit [] = Unit {0}
MapsFit ((type, offset, size) ∷ maps) =
    ((type < item_max) × (0 < type) × (offset < 2 ^ 32) × (size < 2 ^ 32)) × MapsFit maps

pub read_maps-items_bytes :
    (maps : List MapItem) (rest : List ℕ)
    → MapsFit maps
    → read_maps (length maps) (items_bytes (map map_item maps) ++ rest) ≡ some maps
unfolding read_maps items_bytes item_bytes item_words
read_maps-items_bytes [] rest h = refl
read_maps-items_bytes ((type, offset, size) ∷ maps) rest ((hi, lo, o, s), h) =
    let small : type % 2 ^ 16 % 2 ^ 16 ≡ type = omega arith in
    let ws : List ℕ = type % 2 ^ 16 ∷ offset ∷ size ∷ [] in
    let more : List ℕ = items_bytes (map map_item maps) in
    let r = read_words-words_bytes ws (more ++ rest) (omega arith, (o, (s, tt))) in
    rw (append_assoc (words_bytes ws) more rest, r, read_maps-items_bytes maps rest h)
      (ap (λ (n : ℕ). some ((n, offset, size) ∷ maps)) small)

item_length_pos : (d : Item) → 0 < item_length d
unfolding item_length
item_length_pos (Item.map t o s) = omega arith
item_length_pos (Item.string s) = omega arith
item_length_pos (Item.type a) = omega arith
item_length_pos (Item.typelist r) = omega arith
item_length_pos (Item.proto r p) = omega arith
item_length_pos (Item.const c) = omega arith
item_length_pos (Item.locvar n t p i) = omega arith
item_length_pos (Item.var n t k) = omega arith
item_length_pos (Item.func n p c) = omega arith
item_length_pos (Item.code c) = omega arith
item_length_pos (Item.class c s) = omega arith
item_length_pos (Item.field c n t) = omega arith
item_length_pos (Item.method c n p d) = omega arith
item_length_pos (Item.trait c t) = omega arith
item_length_pos (Item.nfunc c n p) = omega arith
item_length_pos (Item.imeth c n p) = omega arith

length-lengths : (ds : List Item) → length ds ≤ lengths ds
unfolding lengths
length-lengths [] = omega arith
length-lengths (d ∷ ds) = omega (arith, item_length_pos d, length-lengths ds)

size-lengths : (t : Table) (type : ℕ) → size t type ≤ lengths (vector t type)
unfolding size
size-lengths t type = length-lengths (vector t type)

-- In a file below the bound they fit.
pub maps_at-MapsFit :
    (t : Table) (types : List ℕ) (p : ℕ)
    → AllTypes types
    → p + length (image_bytes t types) < 2 ^ 32
    → MapsFit (maps_at t types p)
unfolding maps_at
maps_at-MapsFit t [] p all lt = tt
maps_at-MapsFit t (type ∷ types) p (lo, hi, all) lt = elim (Bool-cases (size t type == 0)) [
  | inl e ↦
      let same = ap length (image_bytes-empty t type types e) in
      subst MapsFit (sym (maps_at-empty t type types e p))
        (maps_at-MapsFit t types p all (omega (arith, same)))
  | inr e ↦
      let n = lengths (vector t type) in
      let l = length-image_bytes t type types e in
      subst MapsFit (sym (maps_at-full t type types e p)) (
        (hi, lo, omega (arith, l), omega (arith, l, size-lengths t type)),
        maps_at-MapsFit t types (p + n) all (omega (arith, l)),
      )
]
