-- ===== src/Examples/Sending.antt =====
-- A file of three bytes, with a cipher that keeps bytes and counts them, and numbers that are
-- written as so many ones (internal/clipboard/filetransfer_linux.go).
use wayland_without_borders.Prelude.{
  ℕ, zero, suc, ◌≡◌, ◌≤◌, ◌⊎◌, refl, ap, none, some, List, [], ◌∷◌, ◌++◌, length, replicate,
  length-replicate, ok, arith,
}
use wayland_without_borders.Prelude.Int.{pos}
use wayland_without_borders.Prelude.Bytes.{All}
use wayland_without_borders.Prelude.Text.{Text, bytes_of, has_prefix, to_lower}
use wayland_without_borders.Protocol.Stream.{EncryptWriter, DecryptReader}
use wayland_without_borders.Clipboard.Utf16.{encode_utf16le, put_units, units_of}
use wayland_without_borders.Clipboard.Transfer.{Decimal, win_base, send_file_stream, pull_file}
use wayland_without_borders.Clipboard.Transfer.Names.{IsElement, win_base-IsElement}
use wayland_without_borders.Clipboard.Transfer.Sent.{reliable}
use wayland_without_borders.Clipboard.Transfer.Delivered.{
  DecimalLaws, IsSendable, pull_file-send_file_stream,
}
use wayland_without_borders.Examples.Wire.{counting, counting_laws}

abbrev ones : Decimal
ones = record { print = λ n. replicate n 49; parse = λ t. some (pos (length t)) }

ones_digits : (n : ℕ) → All (λ c. (48 ≤ c) × (c ≤ 57)) (replicate n 49)
ones_digits zero = tt
ones_digits (suc n) = ((omega arith, omega arith), ones_digits n)

ones-DecimalLaws : DecimalLaws ones
ones-DecimalLaws = record {
  print-digits = ones_digits;
  parse-print = λ n. ap (λ m. some (pos m)) (length-replicate {A = ℕ} n 49);
}

abbrev path : Text
path = bytes_of "/a"

abbrev file : List ℕ
file = 7 ∷ 8 ∷ 9 ∷ []

path-IsSendable : IsSendable ones (length file) path
unfolding encode_utf16le put_units units_of has_prefix to_lower
path-IsSendable = record {
  runes = ground arith;
  fits = omega arith;
  no_text = refl;
  no_image = refl;
}

abbrev writer : EncryptWriter counting
writer = record { w = record { sent = []; writes = 0 }; mode = 0 }

abbrev puller : DecryptReader counting
puller = record {
  r = record {
    input =
        (send_file_stream counting ones reliable path (some (length file, file)) writer).0.w.sent
        ++ [];
    fault = none;
  };
  mode = 0;
}

pull_file-send_file_stream_example :
    ((send_file_stream counting ones reliable path (some (length file, file)) writer).1 ≡ none)
    × ((pull_file counting ones puller).0 ≡ ok (some (win_base path, file)))
pull_file-send_file_stream_example =
    pull_file-send_file_stream counting counting_laws ones ones-DecimalLaws path file [] writer
      puller (omega arith) (omega arith) (omega arith) path-IsSendable refl refl

win_base-IsElement_example :
    (win_base (bytes_of "C:\\a/..\\b") ≡ bytes_of "/")
    ⊎ IsElement (win_base (bytes_of "C:\\a/..\\b"))
win_base-IsElement_example = win_base-IsElement (bytes_of "C:\\a/..\\b")
