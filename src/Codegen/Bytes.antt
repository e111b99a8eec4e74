-- ===== src/Codegen/Bytes.antt =====
-- The raw code of a block is its instructions' bytes, one after the other.
use koala_lang_pre.Prelude.{
  Option-cases, length, take, ℕ, ◌+◌, ◌*◌, ◌<◌, ◌≡◌, refl, sym, ap, ◌∙◌, subst, inl, inr, Option,
  none, some, List, [], ◌∷◌, ◌++◌, append_assoc, append-nil, arith,
}
use koala_lang_pre.Buffer.{Buffer, init, write, join, raw_data, align}
use koala_lang_pre.Buffer.Writes.{IsValid, write-Writes, raw_data-IsValid}
use koala_lang_pre.Codegen.{ConstValue, Inst, CodeBlock, inst_gen, gen_insts, to_raw_code}

module _ {Image : Type 0} (add : Image → ConstValue → Image × ℕ) where
  -- The bytes of the instructions that follow, put behind those of one.
  abbrev pub behind : List ℕ → Option (Image × List ℕ) → Option (Image × List ℕ)
  behind bytes none = none
  behind bytes (some (image, more)) = some (image, bytes ++ more)

  -- The instructions one after the other, without a buffer.
  unfoldable pub encode : Image → List Inst → Option (Image × List ℕ)
  encode image [] = some (image, [])
  encode image (i ∷ insts) = elim (inst_gen add image i) [
    | none ↦ none
    | some (image', bytes) ↦ behind bytes (encode image' insts)
  ]

  -- The buffer gets these bytes behind what it holds.
  pub record Fills (buf : Buffer) (image : Image) (bytes : List ℕ) (r : Option (Image × Buffer))
      : Type 0 where
    pub after : Buffer
    pub returns : r ≡ some (image, after)
    pub valid : IsValid after
    pub holds : join after.head ≡ join buf.head ++ bytes

  abbrev pub Generates : Buffer → Option (Image × List ℕ) → Option (Image × Buffer) → Type 0
  Generates buf none r = r ≡ none
  Generates buf (some (image, bytes)) r = Fills buf image bytes r

  Generates-behind :
      (buf buf' : Buffer) (bytes : List ℕ) (o : Option (Image × List ℕ))
      (r : Option (Image × Buffer))
      → join buf'.head ≡ join buf.head ++ bytes
      → Generates buf' o r
      → Generates buf (behind bytes o) r
  Generates-behind buf buf' bytes none r e g = g
  Generates-behind buf buf' bytes (some (image, more)) r e g = record {
    after = g.after;
    returns = g.returns;
    valid = g.valid;
    holds = g.holds ∙ ap (λ (s : List ℕ). s ++ more) e ∙ append_assoc (join buf.head) bytes more;
  }

  Generates-next :
      (image image' : Image) (buf buf' : Buffer) (i : Inst) (insts : List Inst) (bytes : List ℕ)
      → inst_gen add image i ≡ some (image', bytes)
      → write (2 * length bytes + 1) buf bytes ≡ some buf'
      → Generates buf (behind bytes (encode image' insts)) (gen_insts add image' buf' insts)
      → Generates buf (encode image (i ∷ insts)) (gen_insts add image buf (i ∷ insts))
  unfolding gen_insts encode
  Generates-next image image' buf buf' i insts bytes e w g =
      let one : encode image (i ∷ insts) ≡ behind bytes (encode image' insts) =
        rw (encode, e) refl in
      let two : gen_insts add image buf (i ∷ insts) ≡ gen_insts add image' buf' insts =
        rw (gen_insts, e, w) refl in
      subst (λ o. Generates buf o (gen_insts add image buf (i ∷ insts))) (sym one)
        (subst (Generates buf (behind bytes (encode image' insts))) (sym two) g)

  Generates-none :
      (image : Image) (buf : Buffer) (i : Inst) (insts : List Inst)
      → inst_gen add image i ≡ none
      → Generates buf (encode image (i ∷ insts)) (gen_insts add image buf (i ∷ insts))
  unfolding gen_insts encode
  Generates-none image buf i insts e =
      let one : encode image (i ∷ insts) ≡ none = rw (encode, e) refl in
      let two : gen_insts add image buf (i ∷ insts) ≡ none = rw (gen_insts, e) refl in
      subst (λ o. Generates buf o (gen_insts add image buf (i ∷ insts))) (sym one) two

  gen_insts-Generates :
      (image : Image) (buf : Buffer) (insts : List Inst)
      → 0 < buf.bsize
      → IsValid buf
      → Generates buf (encode image insts) (gen_insts add image buf insts)
  unfolding gen_insts encode
  gen_insts-Generates image buf [] h v = record {
    after = buf;
    returns = refl;
    valid = v;
    holds = sym (append-nil _);
  }
  gen_insts-Generates image buf (i ∷ insts) h v = elim (Option-cases (inst_gen add image i)) [
    | inl e ↦ Generates-none image buf i insts e
    | inr ((image', bytes), e) ↦
        let w = write-Writes (2 * length bytes + 1) buf bytes h v (omega arith) in
        let rest = gen_insts-Generates image' w.after insts (omega (arith, w.same_bsize)) w.valid in
        Generates-next image image' buf w.after i insts bytes e w.returns
          (Generates-behind buf w.after bytes (encode image' insts) _ w.holds rest)
  ]

  -- What `CodeBlock_To_RawCode` returns for a block whose bytes are `o`.
  pub record IsCode (image : Image) (bytes : List ℕ) (r : Option (Image × List ℕ × ℕ))
      : Type 0 where
    pub code : List ℕ
    pub returns : r ≡ some (image, code, length bytes)
    pub holds : take (length bytes) code ≡ bytes
    pub padded : length code ≡ align (length bytes)

  abbrev pub Codes : Option (Image × List ℕ) → Option (Image × List ℕ × ℕ) → Type 0
  Codes none r = r ≡ none
  Codes (some (image, bytes)) r = IsCode image bytes r

  raw_code-Codes :
      (image : Image) (b : CodeBlock) (o : Option (Image × List ℕ))
      → Generates (init 32) o (gen_insts add image (init 32) b.insts)
      → Codes o (to_raw_code add image b)
  unfolding to_raw_code join
  raw_code-Codes image b none g = rw (to_raw_code, g) refl
  raw_code-Codes image b (some (im, bytes)) g =
      let d = raw_data-IsValid g.after g.valid in
      let size : g.after.size ≡ length bytes = g.valid.sized ∙ ap (length {0}) g.holds in
      let back : to_raw_code add image b ≡ some (im, raw_data g.after, g.after.size) =
        rw (to_raw_code, g.returns) refl in
      record {
        code = raw_data g.after;
        returns = back ∙ ap (λ (n : ℕ). some (im, raw_data g.after, n)) size;
        holds = ap (λ (n : ℕ). take n (raw_data g.after)) (sym size) ∙ d.0 ∙ g.holds;
        padded = d.1 ∙ ap align size;
      }

  start-IsValid : IsValid (init 32)
  unfolding join
  start-IsValid = record { sized = refl; counted = refl; packed = tt }

  -- The code of a block is the bytes of its instructions, one after the other, padded to a multiple of
  -- four, with the number of these bytes as its size; it fails only where an instruction's does.
  pub to_raw_code-Codes :
      (image : Image) (b : CodeBlock) → Codes (encode image b.insts) (to_raw_code add image b)
  to_raw_code-Codes image b =
      raw_code-Codes image b (encode image b.insts)
        (gen_insts-Generates image (init 32) b.insts (omega arith) start-IsValid)
