-- ===== src/Parser/ValueTests.antt =====
-- Values of literals.
use snap_surf_lang.Prelude.{false, Bytes, text, ◌≡◌, refl, arith, [], ◌∷◌, some, done}
use snap_surf_lang.Lexer.Scan.{digit_value}
use snap_surf_lang.Parser.Literals.{without_underscores, parse_int_value, is_inside, decode_string}
use snap_surf_lang.Parser.Numerals.{
  hexadecimal, radix, prefix, digit, digits, numeral, parse_int_value-numeral,
}
use snap_surf_lang.Parser.Quotes.{
  Spells, new_line, nothing, plain, escape, numbered, quote, quote_bytes, quote_byte,
  decode_string-Spells, decode_string-quote,
}

abbrev digits_of_255 : Bytes
digits_of_255 = text "_f_f"

are_digits_of_255 : without_underscores digits_of_255 ≡ numeral hexadecimal 255
unfolding without_underscores numeral digits digit radix
are_digits_of_255 = refl

parse_int_value-numeral_example : parse_int_value (text "0x_f_f") ≡ some 255
unfolding prefix
parse_int_value-numeral_example =
    parse_int_value-numeral hexadecimal 255 digits_of_255 are_digits_of_255

digit_4 : digit_value b'4' ≡ some 4
unfolding digit_value
digit_4 = refl

digit_1 : digit_value b'1' ≡ some 1
unfolding digit_value
digit_1 = refl

nothing_inside : is_inside [] ≡ false
unfolding is_inside
nothing_inside = refl

three_bytes-Spells : Spells (text "a\\n\\x41") (text "a\nA")
three_bytes-Spells =
    plain (omega arith) (escape new_line (numbered digit_4 digit_1 nothing_inside nothing))

decode_string-Spells_example : decode_string (text "\"a\\n\\x41\"") ≡ done (text "a\nA")
decode_string-Spells_example =
    decode_string-Spells (text "a\\n\\x41") (text "a\nA") three_bytes-Spells

abbrev two_bytes : Bytes
two_bytes = b'"' ∷ 233 ∷ []

quotes_two_bytes : quote two_bytes ≡ text "\"\\\"\\xe9\""
unfolding quote quote_bytes quote_byte digit
quotes_two_bytes = refl

decode_string-quote_example : decode_string (quote two_bytes) ≡ done two_bytes
decode_string-quote_example = decode_string-quote two_bytes (omega arith, (omega arith, tt))
