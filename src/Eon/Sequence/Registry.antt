-- ===== src/Eon/Sequence/Registry.antt =====
-- What a metric manager does to the registry leaves one whose definitions can be registered.
use srad.Prelude.{
  ◌≡◌, refl, false, none, List, [], ◌∷◌, ◌++◌, ◌||◌, Result, ok, err, ◌>>=◌, if_cases, arith,
  lookup, insert, insert-append, list_eq, nat_eq, is_some, Eq,
}
use srad.Types.Text
use srad.Types.Text.{Text, node_control_rebirth}
use srad.Types.Templates.{TemplateDefinition}
use srad.Eon.Templates.{
  TemplateRegistry, TemplateRegistryError, register, deregister, clear, change, change_all,
  RegistryChange, cleared, deregistered, registered, or_else, check_template_metrics,
}
use srad.Eon.Sequence.Births.{Registrable, Unreserved}

abbrev text_eq : Eq Text
text_eq = list_eq

lookup-append :
    (k name : Text) (d : TemplateDefinition) (r : TemplateRegistry)
    → lookup k r ≡ none
    → list_eq.beq name k ≡ false
    → lookup k (r ++ (name, d) ∷ []) ≡ none
unfolding lookup
lookup-append k name d [] l n = ground arith
lookup-append k name d ((j, e) ∷ r) l n = ground (arith, lookup-append k name d r)

Registrable-append :
    (name : Text) (d : TemplateDefinition) (r : TemplateRegistry)
    → Unreserved name
    → lookup name r ≡ none
    → Registrable r
    → Registrable (r ++ (name, d) ∷ [])
unfolding lookup
Registrable-append name d [] u l h = (u, refl, tt)
Registrable-append name d ((k, e) ∷ r) u l h = (
  h.0,
  lookup-append k name d r h.1 (ground (arith, text_eq.beq_iff k name, text_eq.beq_iff name k)),
  Registrable-append name d r u (ground arith) h.2,
)

lookup-deregister :
    (k name : Text) (r : TemplateRegistry) → lookup k r ≡ none → lookup k (deregister name r) ≡ none
unfolding lookup deregister
lookup-deregister k name [] l = refl
lookup-deregister k name ((j, e) ∷ r) l = ground (arith, lookup-deregister k name r)

Registrable-deregister :
    (name : Text) (r : TemplateRegistry) → Registrable r → Registrable (deregister name r)
unfolding deregister
Registrable-deregister name [] h = tt
Registrable-deregister name ((k, e) ∷ r) h =
    if_cases Registrable (list_eq.beq k name) _ _ (λ f. Registrable-deregister name r h.2)
      (λ f. (h.0, lookup-deregister k name r h.1, Registrable-deregister name r h.2))

checked :
    (name : Text) (d : TemplateDefinition) (r : TemplateRegistry)
    (c : Result TemplateRegistryError (Unit {0}))
    → Registrable r
    → Registrable (insert name d r)
    → Registrable (or_else r (c >>= λ _. ok (insert name d r)))
checked name d r (ok u) h i = i
checked name d r (err e) h i = h

Registrable-register :
    (name : Text) (d : TemplateDefinition) (r : TemplateRegistry)
    → Registrable r
    → Registrable (or_else r (register name d r))
unfolding register
Registrable-register name d r h =
    if_cases (λ x. Registrable (or_else r x))
      (list_eq.beq name node_control_rebirth || list_eq.beq name Text.bdseq) _ _ (λ e. h)
      λ e.
        if_cases (λ x. Registrable (or_else r x)) (is_some (lookup name r)) _ _ (λ f. h)
          λ f.
            let l : lookup name r ≡ none = ground arith in
            checked name d r (check_template_metrics r d.metrics) h (
              rw (insert-append name d r l) (
                Registrable-append name d r
                  (
                    ground (
                      arith,
                      e,
                      text_eq.beq_iff name Text.bdseq,
                      text_eq.beq_iff Text.bdseq name,
                    ),
                    ground (
                      arith,
                      e,
                      text_eq.beq_iff name node_control_rebirth,
                      text_eq.beq_iff node_control_rebirth name,
                    ),
                  )
                  l h))

-- Whatever a metric manager does to the registry of templates, in whatever order: no name of the
-- registry occurs twice, and none is one of the two that every birth has.
pub change_all-Registrable :
    (cs : List RegistryChange) (r : TemplateRegistry)
    → Registrable r
    → Registrable (change_all cs r)
unfolding change_all change clear
change_all-Registrable [] r h = h
change_all-Registrable (cleared ∷ cs) r h = change_all-Registrable cs [] tt
change_all-Registrable (deregistered name ∷ cs) r h =
    change_all-Registrable cs (deregister name r) (Registrable-deregister name r h)
change_all-Registrable (registered name d ∷ cs) r h =
    change_all-Registrable cs (or_else r (register name d r)) (Registrable-register name d r h)
