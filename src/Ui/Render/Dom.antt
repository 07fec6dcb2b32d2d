-- ===== src/Ui/Render/Dom.antt =====
-- What src/ui/ui_renderer.cpp builds: the tree of calls that it hands to FTXUI, and its palette.
use monitostr.Prelude.{ℕ, List, [], ◌∷◌, ◌++◌, Text}

pub data Color : Type 0 where
  rgb : ℕ → ℕ → ℕ → Color
  black : Color

-- The decorators; `width` and `height` are `size(WIDTH, EQUAL, n)` and `size(HEIGHT, EQUAL, n)`.
pub data Style : Type 0 where
  bold border flex : Style
  color bgcolor : Color → Style
  width height : ℕ → Style

mutual
  -- `graph` holds the values of the graph function, by the width and the height it is asked for.
  pub data Element : Type 0 where
    text : Text → Element
    separator filler : Element
    graph : (ℕ → ℕ → List ℕ) → Element
    hbox vbox : Elements → Element
    styled : Style → Element → Element

  pub data Elements : Type 0 where
    no_more : Elements
    then_comes : Element → Elements → Elements

unfoldable pub elements : List Element → Elements
elements [] = no_more
elements (e ∷ es) = then_comes e (elements es)

-- `e | style`.
infixl 40 ◌▷◌
abbrev pub ◌▷◌ : Element → Style → Element
e ▷ s = styled s e

-- The texts of a tree, from left to right and from top to bottom.
unfoldable mutual
  pub texts : Element → List Text
  texts (text t) = t ∷ []
  texts separator = []
  texts filler = []
  texts (graph f) = []
  texts (hbox es) = all_texts es
  texts (vbox es) = all_texts es
  texts (styled s e) = texts e

  pub all_texts : Elements → List Text
  all_texts no_more = []
  all_texts (then_comes e es) = texts e ++ all_texts es

abbrev pub bg : Color
bg = rgb 18 22 30

abbrev pub panel : Color
panel = rgb 27 33 44

abbrev pub panel_alt : Color
panel_alt = rgb 33 39 52

abbrev pub panel_focus : Color
panel_focus = rgb 39 48 64

abbrev pub border_color : Color
border_color = rgb 71 84 105

abbrev pub border_focus : Color
border_focus = rgb 111 168 220

abbrev pub text_color : Color
text_color = rgb 222 230 242

abbrev pub text_muted : Color
text_muted = rgb 144 157 178

abbrev pub accent : Color
accent = rgb 88 166 255

abbrev pub accent_warm : Color
accent_warm = rgb 244 196 99

abbrev pub success : Color
success = rgb 125 211 166

abbrev pub warning : Color
warning = rgb 244 179 80

abbrev pub danger : Color
danger = rgb 240 113 120

abbrev pub command_color : Color
command_color = rgb 174 138 255
