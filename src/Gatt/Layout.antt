-- ===== src/Gatt/Layout.antt =====
-- The code that `gatt` of bleps-macros/src/lib.rs (280-537) writes, step by step, against the plan.
use Prim.Native.String.{String, ◌++◌ as text_append}
use bleps.Common.{
  ℕ, ◌≡◌, refl, ap, Bool, true, false, ◌||◌, Option, none, some, [], ◌∷◌, ltb, if◌then◌else◌,
}
use bleps.Gatt.{Expansion, expands, panics, compile_error, Descriptor, Characteristic}
use bleps.Gatt.Code.{Crates, Decl, checked, closures_decl, variable_decl}
use bleps.Gatt.Generate.{
  is_some, announce, plain, value_decl, source_count, descriptor_source_count, closures_data,
  variable_data, value_data, value_duplicated, value_missing, descriptor_duplicated,
  descriptor_missing, descriptor_data, descriptor_decl,
}
use bleps.Gatt.Running.{Content, variable, functions, exec_decl}
use bleps.Gatt.Slots.{Holds}
use bleps.Gatt.Plan.{announced, or_text, value_content, descriptor_content}
use bleps.Gatt.Outcomes.{
  Yields, expands-Yields, error-Yields, panics-Yields, if-Yields, bind-Yields,
}

checked-Yields : (crates : Crates) (text : String) → Yields (λ t. t ≡ text) (checked crates text)
unfolding checked
checked-Yields crates text =
    if-Yields (crates.is_ident text) (expands text) panics (λ h. expands-Yields text refl)
      (λ h. panics-Yields)

pub announce-Yields :
    (crates : Crates) (name : Option String) (suffix : String) (handle : ℕ)
    → Yields (λ cs. cs ≡ announced name suffix handle) (announce crates name suffix handle)
unfolding announce
announce-Yields crates none suffix handle = expands-Yields [] refl
announce-Yields crates (some name) suffix handle =
    bind-Yields (checked crates (text_append name suffix)) _
      (checked-Yields crates (text_append name suffix))
      (λ t e q. expands-Yields ((t, handle) ∷ []) (ap (λ u. (u, handle) ∷ []) q))

plain-Yields : (crates : Crates) (name : Option String) → Yields (λ r. r ≡ name) (plain crates name)
unfolding plain
plain-Yields crates none = expands-Yields none refl
plain-Yields crates (some name) =
    bind-Yields (checked crates name) _ (checked-Yields crates name)
      (λ t e q. expands-Yields (some t) (ap some q))

pub closures-Holds :
    (x : String) (r w n r' w' n' : Option String)
    → r ≡ r'
    → w ≡ w'
    → n ≡ n'
    → Holds (closures_decl x r w n) x (functions r' w' n')
unfolding exec_decl
closures-Holds x r w n r' w' n' e₁ e₂ e₃ = λ env. rw (e₁, e₂, e₃) refl

variable-Holds : (x v v' : String) → v ≡ v' → Holds (variable_decl x v) x (variable v')
unfolding exec_decl
variable-Holds x v v' e = λ env. rw (e) refl

closures_data-Yields :
    (crates : Crates) (x : String) (r w n : Option String)
    → Yields (λ d. Holds d x (functions r w n)) (closures_data crates x r w n)
unfolding closures_data
closures_data-Yields crates x r w n =
    bind-Yields (plain crates r) _ (plain-Yields crates r) λ r' e₁ q₁.
      bind-Yields (plain crates w) _ (plain-Yields crates w) λ w' e₂ q₂.
        bind-Yields (plain crates n) _ (plain-Yields crates n) λ n' e₃ q₃.
          expands-Yields (closures_decl x r' w' n') (closures-Holds x r' w' n' r w n q₁ q₂ q₃)

variable_data-Yields :
    (crates : Crates) (x name : String)
    → Yields (λ d. Holds d x (variable name)) (variable_data crates x name)
unfolding variable_data
variable_data-Yields crates x name =
    bind-Yields (checked crates name) _ (checked-Yields crates name)
      (λ v e q. expands-Yields (variable_decl x v) (variable-Holds x v name q))

value_data-Yields :
    (crates : Crates) (x : String) (value content : Option String)
    → Yields
        (λ d. Holds d x (variable (or_text value (or_text content ""))))
        (value_data crates x value content)
unfolding value_data
value_data-Yields crates x (some name) content = variable_data-Yields crates x name
value_data-Yields crates x none (some name) = variable_data-Yields crates x name
value_data-Yields crates x none none = error-Yields value_missing

descriptor_data-Yields :
    (crates : Crates) (x : String) (value : Option String)
    → Yields (λ d. Holds d x (variable (or_text value ""))) (descriptor_data crates x value)
unfolding descriptor_data
descriptor_data-Yields crates x (some name) = variable_data-Yields crates x name
descriptor_data-Yields crates x none = error-Yields descriptor_missing

-- Functions, or else a value.
either-Yields :
    (x : String) (f : Bool) (a b : Content) (m n : Expansion Decl)
    → Yields (λ d. Holds d x a) m
    → Yields (λ d. Holds d x b) n
    → Yields (λ d. Holds d x (if f then a else b)) (if f then m else n)
either-Yields x true a b m n hm hn = hm
either-Yields x false a b m n hm hn = hn

pub value_decl-Yields :
    (crates : Crates) (x : String) (c : Characteristic)
    → Yields (λ d. Holds d x (value_content c)) (value_decl crates x c)
unfolding value_decl
value_decl-Yields crates x c =
    if-Yields (ltb 1 (source_count c)) (compile_error value_duplicated) _
      (λ many. error-Yields value_duplicated)
      (λ few.
        either-Yields x (is_some c.read || is_some c.write) (functions c.read c.write c.notify_cb)
          (variable (or_text c.value (or_text c.content ""))) _ _
          (closures_data-Yields crates x c.read c.write c.notify_cb)
          (value_data-Yields crates x c.value c.content))

pub descriptor_decl-Yields :
    (crates : Crates) (x : String) (d : Descriptor)
    → Yields (λ decl. Holds decl x (descriptor_content d)) (descriptor_decl crates x d)
unfolding descriptor_decl
descriptor_decl-Yields crates x d =
    if-Yields (ltb 1 (descriptor_source_count d)) (compile_error descriptor_duplicated) _
      (λ many. error-Yields descriptor_duplicated)
      (λ few.
        either-Yields x (is_some d.read || is_some d.write) (functions d.read d.write none)
          (variable (or_text d.value "")) _ _ (closures_data-Yields crates x d.read d.write none)
          (descriptor_data-Yields crates x d.value))
