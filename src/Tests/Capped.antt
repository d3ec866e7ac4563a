-- ===== src/Tests/Capped.antt =====
-- Bodies of three bytes.
use key_cloak_sdk.Capped.{deliver, Stream, read_capped, read_capped_chunks}
use key_cloak_sdk.Capped.Chunks.{IsFaultless, readers_agree}
use key_cloak_sdk.Capped.Laws.{Capped, read_capped_lem}
use key_cloak_sdk.Common.{◌≡◌, refl, [], ◌∷◌}
use mathlib.Core.List.{Memᴰ}

abbrev in_two : Stream
in_two = record { bytes = 1 ∷ 2 ∷ 3 ∷ []; events = deliver 1 ∷ [] }

abbrev bytewise : Stream
bytewise = record { bytes = 1 ∷ 2 ∷ 3 ∷ []; events = [] }

in_two-IsFaultless : IsFaultless in_two
in_two-IsFaultless e (Memᴰ.head q) = cc
in_two-IsFaultless e (Memᴰ.tail m) = elim m [ ]

read_capped_lem_example : Capped in_two 3 (read_capped in_two 3)
read_capped_lem_example = read_capped_lem in_two 3

readers_agree_example : read_capped in_two 2 ≡ read_capped_chunks bytewise 2
readers_agree_example = readers_agree in_two bytewise 2 refl in_two-IsFaultless (λ e m. elim m [ ])
