-- ===== src/Crypt/Head/Layouts.antt =====
-- Reading a bit-field struct gives back what was written, in each of the three layouts.
use os_irose_new.Common.{ℕ, ◌^◌, ◌<◌, ◌≡◌, arith}
use os_irose_new.Common.Xor.{field}
use os_irose_new.Crypt.Head.{
  Fields, Layout, read_fields, write_fields, head_crypted_server, head_crypted_client,
  head_decrypted, Head, head_word, word_head,
}

-- Every field fits its width.
pub record IsFields (f : Fields) : Type 0 where
  pub add_buffer_len1 : f.add_buffer_len1 < 8
  pub add_buffer_len2 : f.add_buffer_len2 < 8
  pub add_buffer_len3 : f.add_buffer_len3 < 8
  pub add_buffer_len4 : f.add_buffer_len4 < 4
  pub command1 : f.command1 < 8
  pub command2 : f.command2 < 8
  pub command3 : f.command3 < 8
  pub command4 : f.command4 < 4
  pub add_table_value1 : f.add_table_value1 < 8
  pub add_table_value2 : f.add_table_value2 < 8
  pub add_table_value3 : f.add_table_value3 < 8
  pub add_table_value4 : f.add_table_value4 < 4
  pub encrypt_add_value1 : f.encrypt_add_value1 < 4
  pub encrypt_add_value2 : f.encrypt_add_value2 < 4
  pub encrypt_value1 : f.encrypt_value1 < 8

pub read_fields-IsFields : (l : Layout) (x : ℕ) → IsFields (read_fields l x)
unfolding read_fields field
read_fields-IsFields l x = omega arith

-- What a layout is for: five bytes hold the fields, and reading gives back what was written.
pub record IsLayout (l : Layout) : Type 0 where
  pub fits : (f : Fields) → IsFields f → write_fields l f < 2 ^ 40
  pub read-write : (f : Fields) → IsFields f → read_fields l (write_fields l f) ≡ f

-- The bit-fields of HeadCryptedServer fit five bytes and lie side by side: reading them gives back
-- what was written.
pub head_crypted_server-IsLayout : IsLayout head_crypted_server
unfolding read_fields write_fields field
head_crypted_server-IsLayout = record {
  fits = λ f h. ground arith;
  read-write = λ f h. ground arith;
}

-- The same of HeadCryptedClient.
pub head_crypted_client-IsLayout : IsLayout head_crypted_client
unfolding read_fields write_fields field
head_crypted_client-IsLayout = record {
  fits = λ f h. ground arith;
  read-write = λ f h. ground arith;
}

-- The same of HeadDecrypted.
pub head_decrypted-IsLayout : IsLayout head_decrypted
unfolding read_fields write_fields field
head_decrypted-IsLayout = record { fits = λ f h. ground arith; read-write = λ f h. ground arith }

-- The two views of the plain header, HeadDecrypted and Head, agree.
pub write-read_decrypted :
    (x : ℕ) → x < 2 ^ 40 → write_fields head_decrypted (read_fields head_decrypted x) ≡ x
unfolding read_fields write_fields field
write-read_decrypted x h = omega arith

pub record IsHead (h : Head) : Type 0 where
  pub add_buffer_len : h.add_buffer_len < 2 ^ 11
  pub command : h.command < 2 ^ 11
  pub add_table_value : h.add_table_value < 2 ^ 11
  pub encrypt_add_value : h.encrypt_add_value < 2 ^ 4
  pub encrypt_value : h.encrypt_value < 2 ^ 3

pub head_word-lt : (h : Head) → IsHead h → head_word h < 2 ^ 40
unfolding head_word
head_word-lt h v = omega arith

pub word_head-head_word : (h : Head) → IsHead h → word_head (head_word h) ≡ h
unfolding head_word word_head field
word_head-head_word h v = ground arith
