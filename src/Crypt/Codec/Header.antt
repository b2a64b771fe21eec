-- ===== src/Crypt/Codec/Header.antt =====
-- The five header bytes: what the encoders write there the decoders of the same layout read back.
use os_irose_new.Common.{ℕ, ◌+◌, ◌*◌, ◌%◌, ◌^◌, ◌<◌, ◌≡◌, sym, ap, ◌∙◌, arith, bit_xor}
use os_irose_new.Common.Memory.{
  Memory, IsBytes, load40, store40, load40-store40, load40-xor, load40_congr, store40-IsBytes,
}
use os_irose_new.Common.Xor.{xor_byte, field, xor-field, xor_cancel}
use os_irose_new.Crypt.Head.{
  Fields, Layout, read_fields, write_fields, flip_head_main, flip_head_final, head_decrypted, Head,
  head_word, word_head,
}
use os_irose_new.Crypt.Head.Layouts.{
  IsFields, IsLayout, IsHead, read_fields-IsFields, head_decrypted-IsLayout, head_word-lt,
  word_head-head_word, write-read_decrypted,
}
use os_irose_new.Crypt.Codec.{
  Table, flip_main_into, flip_final_into, flip_main_from, flip_final_from, zero_head,
}

-- Field by field.
xor_fields : Fields → Fields → Fields
xor_fields a b = record {
  add_buffer_len1 = bit_xor a.add_buffer_len1 b.add_buffer_len1;
  add_buffer_len2 = bit_xor a.add_buffer_len2 b.add_buffer_len2;
  add_buffer_len3 = bit_xor a.add_buffer_len3 b.add_buffer_len3;
  add_buffer_len4 = bit_xor a.add_buffer_len4 b.add_buffer_len4;
  command1 = bit_xor a.command1 b.command1;
  command2 = bit_xor a.command2 b.command2;
  command3 = bit_xor a.command3 b.command3;
  command4 = bit_xor a.command4 b.command4;
  add_table_value1 = bit_xor a.add_table_value1 b.add_table_value1;
  add_table_value2 = bit_xor a.add_table_value2 b.add_table_value2;
  add_table_value3 = bit_xor a.add_table_value3 b.add_table_value3;
  add_table_value4 = bit_xor a.add_table_value4 b.add_table_value4;
  encrypt_add_value1 = bit_xor a.encrypt_add_value1 b.encrypt_add_value1;
  encrypt_add_value2 = bit_xor a.encrypt_add_value2 b.encrypt_add_value2;
  encrypt_value1 = bit_xor a.encrypt_value1 b.encrypt_value1;
}

read_fields-xor :
    (l : Layout) (x y : ℕ)
    → read_fields l (bit_xor x y) ≡ xor_fields (read_fields l x) (read_fields l y)
unfolding read_fields xor_fields
read_fields-xor l x y = simp xor-field

-- The main fields survive a mask that is put on, the table fields that are then overwritten, and the
-- mask that is taken off.
flip_main_masked :
    (a f k t g : Fields)
    → flip_head_main a (xor_fields (flip_head_final (xor_fields (flip_head_main f g) k) t) k)
      ≡ flip_head_main a g
unfolding flip_head_main flip_head_final xor_fields
flip_main_masked a f k t g = simp xor_cancel

flip_main-IsFields : (a b : Fields) → IsFields a → IsFields b → IsFields (flip_head_main a b)
unfolding flip_head_main
flip_main-IsFields a b p q = ground arith

flip_final-IsFields : (a b : Fields) → IsFields a → IsFields b → IsFields (flip_head_final a b)
unfolding flip_head_final
flip_final-IsFields a b p q = ground arith

abbrev fields_of : Head → Fields
fields_of h = read_fields head_decrypted (head_word h)

head_word-word_head : (x : ℕ) → x < 2 ^ 40 → head_word (word_head x) ≡ x
unfolding head_word word_head field
head_word-word_head x h = omega arith

-- A Head is the same as its fields.
fields_of-word_head :
    (f : Fields) → IsFields f → fields_of (word_head (write_fields head_decrypted f)) ≡ f
fields_of-word_head f v =
    ap (read_fields head_decrypted)
      (head_word-word_head (write_fields head_decrypted f) (head_decrypted-IsLayout.fits f v))
    ∙ head_decrypted-IsLayout.read-write f v

word_head-fields_of :
    (h : Head) → IsHead h → word_head (write_fields head_decrypted (fields_of h)) ≡ h
word_head-fields_of h v =
    ap word_head (write-read_decrypted (head_word h) (head_word-lt h v)) ∙ word_head-head_word h v

pub flip_main_into-IsBytes :
    (l : Layout) (m : Memory) (h : Head) → IsBytes m → IsBytes (flip_main_into l m h)
unfolding flip_main_into
flip_main_into-IsBytes l m h v = store40-IsBytes m _ v

pub flip_final_into-IsBytes :
    (l : Layout) (m : Memory) (h : Head) → IsBytes m → IsBytes (flip_final_into l m h)
unfolding flip_final_into
flip_final_into-IsBytes l m h v = store40-IsBytes m _ v

-- AddTableValue from its four fields.
table_value : Fields → ℕ
table_value f =
    f.add_table_value1 + f.add_table_value2 * 8 + f.add_table_value3 * 64 + f.add_table_value4 * 512

table_value-fields_of : (h : Head) → IsHead h → table_value (fields_of h) ≡ h.add_table_value
unfolding table_value read_fields head_word field
table_value-fields_of h v = omega arith

word_head-IsHead : (x : ℕ) → IsHead (word_head x)
unfolding word_head field
word_head-IsHead x = omega arith

-- `n` is `m` with the first five bytes masked by the keys for table value `t`.
abbrev pub Masked : Table → ℕ → Memory → Memory → Type 0
Masked rt t m n = (j : ℕ) → j < 5 → n j ≡ xor_byte (m j) (rt j t)

module _ (l : Layout) (lay : IsLayout l) where
  -- Writing through a cast, then reading through it.
  read-store40 :
      (m : Memory) (f : Fields)
      → IsFields f
      → read_fields l (load40 (store40 m (write_fields l f))) ≡ f
  read-store40 m f v =
      ap (read_fields l) (load40-store40 m (write_fields l f) (lay.fits f v)) ∙ lay.read-write f v

  read-flip_main_into :
      (m : Memory) (h : Head)
      → read_fields l (load40 (flip_main_into l m h))
        ≡ flip_head_main (read_fields l (load40 m)) (fields_of h)
  unfolding flip_main_into
  read-flip_main_into m h =
      read-store40 m _
        (flip_main-IsFields _ _ (read_fields-IsFields l _) (read_fields-IsFields head_decrypted _))

  read-flip_final_into :
      (m : Memory) (h : Head)
      → read_fields l (load40 (flip_final_into l m h))
        ≡ flip_head_final (read_fields l (load40 m)) (fields_of h)
  unfolding flip_final_into
  read-flip_final_into m h =
      read-store40 m _
        (flip_final-IsFields _ _ (read_fields-IsFields l _) (read_fields-IsFields head_decrypted _))

  read-Masked :
      (rt : Table) (t : ℕ) (m n : Memory)
      → IsBytes m
      → Masked rt t m n
      → read_fields l (load40 n)
        ≡ xor_fields (read_fields l (load40 m)) (read_fields l (load40 (λ j. rt j t % 256)))
  read-Masked rt t m n v e =
      ap (read_fields l) (load40_congr n _ e ∙ load40-xor m (λ j. rt j t) v) ∙ read_fields-xor l _ _

  -- The first half of the header decoders reads the table fields that the encoder put in the clear.
  fields-flip_final_from :
      (m : Memory) (h : Head)
      → fields_of (flip_final_from l zero_head (flip_final_into l m h))
        ≡ flip_head_final (fields_of zero_head) (fields_of h)
  unfolding flip_final_from flip_head_final
  fields-flip_final_from m h =
      fields_of-word_head _
        (flip_final-IsFields _ _ (read_fields-IsFields head_decrypted _) (read_fields-IsFields l _))
      ∙ ap (flip_head_final (fields_of zero_head)) (read-flip_final_into m h)

  -- The fields that the second half reads, once the mask is off.
  fields-unmasked :
      (rt : Table) (t : ℕ) (h : Head) (m m2 m4 : Memory) (a : Fields)
      → IsBytes m
      → IsBytes m2
      → Masked rt t (flip_main_into l m h) m2
      → Masked rt t (flip_final_into l m2 h) m4
      → flip_head_main a (read_fields l (load40 m4)) ≡ flip_head_main a (fields_of h)
  fields-unmasked rt t h m m2 m4 a v v2 e2 e4 =
      ap (flip_head_main a) (
        read-Masked rt t _ m4 (flip_final_into-IsBytes l m2 h v2) e4
        ∙ ap (λ f. xor_fields f key)
            (read-flip_final_into m2 h
              ∙ ap (λ f. flip_head_final f (fields_of h))
                  (read-Masked rt t _ m2 (flip_main_into-IsBytes l m h v) e2
                    ∙ ap (λ f. xor_fields f key) (read-flip_main_into m h))))
      ∙ flip_main_masked a (read_fields l (load40 m)) key (fields_of h) (fields_of h)
    where
      key : Fields
      key = read_fields l (load40 (λ j. rt j t % 256))

  -- The first half reads the table value, so both halves use one mask.
  pub table_value-flip_final_from :
      (m : Memory) (h : Head)
      → IsHead h
      → (flip_final_from l zero_head (flip_final_into l m h)).add_table_value ≡ h.add_table_value
  unfolding flip_final_from table_value flip_head_final
  table_value-flip_final_from m h v =
      sym (table_value-fields_of _ (word_head-IsHead _))
      ∙ ap table_value (fields-flip_final_from m h)
      ∙ table_value-fields_of h v

  -- The second half gives back the whole header.
  pub flip_main_from-Masked :
      (rt : Table) (t : ℕ) (h : Head) (m m2 m4 : Memory)
      → IsHead h
      → IsBytes m
      → IsBytes m2
      → Masked rt t (flip_main_into l m h) m2
      → Masked rt t (flip_final_into l m2 h) m4
      → flip_main_from l (flip_final_from l zero_head (flip_final_into l m2 h)) m4 ≡ h
  unfolding flip_main_from flip_head_main flip_head_final
  flip_main_from-Masked rt t h m m2 m4 hh hm hm2 e2 e4 =
      ap (λ f. word_head (write_fields head_decrypted f))
        (fields-unmasked rt t h m m2 m4
            (fields_of (flip_final_from l zero_head (flip_final_into l m2 h))) hm hm2 e2 e4
          ∙ ap (λ f. flip_head_main f (fields_of h)) (fields-flip_final_from m2 h))
      ∙ word_head-fields_of h hh
