-- ===== src/Samples/ToyCodec.antt =====
-- A codec that round-trips, for the examples: an object is its signs, its numbers and its texts,
-- each text behind its length, and base64 is the identity.
use katamari.Base.{
  ℕ, zero, suc, ◌≡◌, refl, List, [], ◌∷◌, ◌++◌, Option, none, some, length, take, drop, ok,
}
use katamari.Base.Int.{ℤ, pos, negsuc}
use katamari.Base.Text.{Bytes, codes}
use katamari.Objects.{Object, Codec, zero_object}

abbrev pub sign : ℤ → ℕ
sign (pos n) = 0
sign (negsuc n) = 1

abbrev pub size : ℤ → ℕ
size (pos n) = n
size (negsuc n) = n

abbrev pub signed : ℕ → ℕ → ℤ
signed zero n = pos n
signed (suc s) n = negsuc n

abbrev pub toy_encode : Object → Bytes
toy_encode o =
    sign o.created
    ∷ size o.created
    ∷ sign o.updated
    ∷ size o.updated
    ∷ length o.index
    ∷ (o.index ++ o.content)

abbrev pub toy_decode : Bytes → Object × Option Bytes
toy_decode (a ∷ b ∷ c ∷ d ∷ n ∷ rest) = (
  record { created = signed a b; updated = signed c d; index = take n rest; content = drop n rest },
  none,
)
toy_decode _ = (zero_object, some (codes "unexpected end"))

abbrev pub toy_list : List Object → Bytes
toy_list [] = []
toy_list (o ∷ os) = toy_encode o ++ toy_list os

abbrev pub toy_keys : List Bytes → Bytes
toy_keys [] = []
toy_keys (k ∷ ks) = k ++ b',' ∷ toy_keys ks

abbrev pub toy_codec : Codec
toy_codec = record {
  unmarshal = toy_decode;
  unmarshal_list = λ raw. ([], none);
  read_object = toy_decode;
  read_list = λ raw. ([], none);
  encode_object = toy_encode;
  marshal_list = λ objs. ok (toy_list objs);
  marshal_keys = λ ks. ok (toy_keys ks);
  encode64 = λ raw. raw;
  decode64 = λ text. ok text;
}

signed-sign : (n : ℤ) → signed (sign n) (size n) ≡ n
signed-sign (pos n) = refl
signed-sign (negsuc n) = refl

pub take-length : (s t : Bytes) → take (length s) (s ++ t) ≡ s
take-length [] t = refl
take-length (c ∷ s) t = rw (take-length s t)

pub drop-length : (s t : Bytes) → drop (length s) (s ++ t) ≡ t
drop-length [] t = refl
drop-length (c ∷ s) t = drop-length s t

pub toy_round_trips : (o : Object) → toy_decode (toy_encode o) ≡ (o, none)
toy_round_trips o =
    rw (signed-sign o.created, signed-sign o.updated, take-length o.index, drop-length o.index)
