-- ===== src/X509/Tag.antt =====
-- The identifier bytes of src/x509.h.
use simple_x509_authenticate.Common.{ℕ, bit_or}

abbrev pub constructed : ℕ
constructed = 0b00100000

abbrev pub boolean : ℕ
boolean = 1

abbrev pub integer : ℕ
integer = 2

abbrev pub bitstring : ℕ
bitstring = 3

abbrev pub octet_string : ℕ
octet_string = 4

abbrev pub oid : ℕ
oid = 6

abbrev pub sequence : ℕ
sequence = bit_or constructed 16

abbrev pub set : ℕ
set = bit_or constructed 17

abbrev pub utctime : ℕ
utctime = 23

abbrev pub generalizedtime : ℕ
generalizedtime = 24

abbrev pub explicit_0 : ℕ
explicit_0 = 0b10100000

abbrev pub implicit_0 : ℕ
implicit_0 = 0b10000000

abbrev pub implicit_1 : ℕ
implicit_1 = 0b10000001

abbrev pub implicit_2 : ℕ
implicit_2 = 0b10000010

abbrev pub explicit_3 : ℕ
explicit_3 = 0b10100011
