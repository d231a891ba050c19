-- ===== src/Types/Text.antt =====
-- A Rust `String` is the list of its UTF-8 bytes. The names that the protocol fixes are those of
-- srad-types/src/constants.rs.
use Prim.Native.Char.{code}
use srad.Prelude.{ℕ, String, List, [], ◌∷◌}

abbrev pub Text : Type 0
Text = List ℕ

-- The bytes of a literal, which is ASCII.
abbrev pub text : String → Text
text String.[] = []
text (String.◌∷◌ c s) = code c ∷ text s

abbrev pub spbv01 : Text
spbv01 = text "spBv1.0"

abbrev pub node_control_rebirth : Text
node_control_rebirth = text "Node Control/Rebirth"

abbrev pub bdseq : Text
bdseq = text "bdSeq"

abbrev pub nbirth : Text
nbirth = text "NBIRTH"

abbrev pub ndeath : Text
ndeath = text "NDEATH"

abbrev pub ndata : Text
ndata = text "NDATA"

abbrev pub ncmd : Text
ncmd = text "NCMD"

abbrev pub dbirth : Text
dbirth = text "DBIRTH"

abbrev pub ddeath : Text
ddeath = text "DDEATH"

abbrev pub ddata : Text
ddata = text "DDATA"

abbrev pub dcmd : Text
dcmd = text "DCMD"

abbrev pub state : Text
state = text "STATE"

abbrev pub quality : Text
quality = text "Quality"
