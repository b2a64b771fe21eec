-- ===== src/Crypt/Head.antt =====
-- The five header bytes of a packet (crosecrypt.h). The three structs HeadCryptedServer,
-- HeadCryptedClient and HeadDecrypted hold the same fifteen bit-fields at different places: `Fields`
-- is what they hold, a `Layout` is where each one starts in the 40 bits. Bit-fields are allocated
-- from the lowest bit up, as the little-endian compilers of the project do.
pub mod Layouts
use os_irose_new.Common.{ℕ, ◌+◌, ◌*◌, ◌/◌, ◌%◌, ◌^◌, ◌<◌, ◌≡◌, arith}
use os_irose_new.Common.Xor.{field, xor-field}

pub record Fields : Type 0 where
  pub add_buffer_len1 : ℕ
  pub add_buffer_len2 : ℕ
  pub add_buffer_len3 : ℕ
  pub add_buffer_len4 : ℕ
  pub command1 : ℕ
  pub command2 : ℕ
  pub command3 : ℕ
  pub command4 : ℕ
  pub add_table_value1 : ℕ
  pub add_table_value2 : ℕ
  pub add_table_value3 : ℕ
  pub add_table_value4 : ℕ
  pub encrypt_add_value1 : ℕ
  pub encrypt_add_value2 : ℕ
  pub encrypt_value1 : ℕ

-- The first bit of each field.
pub record Layout : Type 0 where
  pub add_buffer_len1 : ℕ
  pub add_buffer_len2 : ℕ
  pub add_buffer_len3 : ℕ
  pub add_buffer_len4 : ℕ
  pub command1 : ℕ
  pub command2 : ℕ
  pub command3 : ℕ
  pub command4 : ℕ
  pub add_table_value1 : ℕ
  pub add_table_value2 : ℕ
  pub add_table_value3 : ℕ
  pub add_table_value4 : ℕ
  pub encrypt_add_value1 : ℕ
  pub encrypt_add_value2 : ℕ
  pub encrypt_value1 : ℕ

-- struct HeadCryptedServer
abbrev pub head_crypted_server : Layout
head_crypted_server = record {
  add_buffer_len2 = 0;
  add_table_value1 = 3;
  command3 = 6;
  encrypt_value1 = 9;
  add_buffer_len3 = 12;
  add_table_value3 = 15;
  command2 = 18;
  add_table_value4 = 21;
  command1 = 23;
  encrypt_add_value1 = 26;
  add_buffer_len4 = 28;
  encrypt_add_value2 = 30;
  add_buffer_len1 = 32;
  add_table_value2 = 35;
  command4 = 38;
}

-- struct HeadCryptedClient
abbrev pub head_crypted_client : Layout
head_crypted_client = record {
  command2 = 0;
  add_table_value2 = 3;
  add_buffer_len1 = 6;
  add_table_value3 = 9;
  command1 = 12;
  encrypt_value1 = 15;
  add_buffer_len2 = 18;
  encrypt_add_value2 = 21;
  add_buffer_len3 = 23;
  add_table_value4 = 26;
  command4 = 28;
  encrypt_add_value1 = 30;
  command3 = 32;
  add_table_value1 = 35;
  add_buffer_len4 = 38;
}

-- struct HeadDecrypted
abbrev pub head_decrypted : Layout
head_decrypted = record {
  add_buffer_len1 = 0;
  add_buffer_len2 = 3;
  add_buffer_len3 = 6;
  add_buffer_len4 = 9;
  command1 = 11;
  command2 = 14;
  command3 = 17;
  command4 = 20;
  add_table_value1 = 22;
  add_table_value2 = 25;
  add_table_value3 = 28;
  add_table_value4 = 31;
  encrypt_add_value1 = 33;
  encrypt_add_value2 = 35;
  encrypt_value1 = 37;
}

-- The fields that a struct of layout `l` shows in the 40 bits `x`.
unfoldable pub read_fields : Layout → ℕ → Fields
read_fields l x = record {
  add_buffer_len1 = field l.add_buffer_len1 3 x;
  add_buffer_len2 = field l.add_buffer_len2 3 x;
  add_buffer_len3 = field l.add_buffer_len3 3 x;
  add_buffer_len4 = field l.add_buffer_len4 2 x;
  command1 = field l.command1 3 x;
  command2 = field l.command2 3 x;
  command3 = field l.command3 3 x;
  command4 = field l.command4 2 x;
  add_table_value1 = field l.add_table_value1 3 x;
  add_table_value2 = field l.add_table_value2 3 x;
  add_table_value3 = field l.add_table_value3 3 x;
  add_table_value4 = field l.add_table_value4 2 x;
  encrypt_add_value1 = field l.encrypt_add_value1 2 x;
  encrypt_add_value2 = field l.encrypt_add_value2 2 x;
  encrypt_value1 = field l.encrypt_value1 3 x;
}

-- The 40 bits of a struct of layout `l` that holds `f`.
unfoldable pub write_fields : Layout → Fields → ℕ
write_fields l f =
    f.add_buffer_len1 * 2 ^ l.add_buffer_len1
    + f.add_buffer_len2 * 2 ^ l.add_buffer_len2
    + f.add_buffer_len3 * 2 ^ l.add_buffer_len3
    + f.add_buffer_len4 * 2 ^ l.add_buffer_len4
    + f.command1 * 2 ^ l.command1
    + f.command2 * 2 ^ l.command2
    + f.command3 * 2 ^ l.command3
    + f.command4 * 2 ^ l.command4
    + f.add_table_value1 * 2 ^ l.add_table_value1
    + f.add_table_value2 * 2 ^ l.add_table_value2
    + f.add_table_value3 * 2 ^ l.add_table_value3
    + f.add_table_value4 * 2 ^ l.add_table_value4
    + f.encrypt_add_value1 * 2 ^ l.encrypt_add_value1
    + f.encrypt_add_value2 * 2 ^ l.encrypt_add_value2
    + f.encrypt_value1 * 2 ^ l.encrypt_value1

-- FlipHeadMain(a, b): all fields but those of AddTableValue, from `b` into `a`.
unfoldable pub flip_head_main : Fields → Fields → Fields
flip_head_main a b = record a {
  add_buffer_len1 = b.add_buffer_len1;
  add_buffer_len2 = b.add_buffer_len2;
  add_buffer_len3 = b.add_buffer_len3;
  add_buffer_len4 = b.add_buffer_len4;
  command1 = b.command1;
  command2 = b.command2;
  command3 = b.command3;
  command4 = b.command4;
  encrypt_value1 = b.encrypt_value1;
  encrypt_add_value1 = b.encrypt_add_value1;
  encrypt_add_value2 = b.encrypt_add_value2;
}

-- FlipHeadFinal(a, b): the fields of AddTableValue, from `b` into `a`.
unfoldable pub flip_head_final : Fields → Fields → Fields
flip_head_final a b = record a {
  add_table_value1 = b.add_table_value1;
  add_table_value2 = b.add_table_value2;
  add_table_value3 = b.add_table_value3;
  add_table_value4 = b.add_table_value4;
}

-- struct Head, which lies over the same bytes as HeadDecrypted.
pub record Head : Type 0 where
  pub add_buffer_len : ℕ
  pub command : ℕ
  pub add_table_value : ℕ
  pub encrypt_add_value : ℕ
  pub encrypt_value : ℕ

-- The bytes of a Head as a number, lowest byte first.
unfoldable pub head_word : Head → ℕ
head_word h =
    h.add_buffer_len
    + h.command * 2 ^ 11
    + h.add_table_value * 2 ^ 22
    + h.encrypt_add_value * 2 ^ 33
    + h.encrypt_value * 2 ^ 37

unfoldable pub word_head : ℕ → Head
word_head x = record {
  add_buffer_len = field 0 11 x;
  command = field 11 11 x;
  add_table_value = field 22 11 x;
  encrypt_add_value = field 33 4 x;
  encrypt_value = field 37 3 x;
}
