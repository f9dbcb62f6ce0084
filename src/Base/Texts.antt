-- ===== src/Base/Texts.antt =====
-- Texts put together, by recursion on the first.
use Prim.Native.String.{String}

unfoldable pub then_text : String → String → String
then_text String.[] t = t
then_text (String.◌∷◌ c s) t = String.◌∷◌ c (then_text s t)
