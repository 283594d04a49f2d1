-- ===== src/Reconciler/Kinds.antt =====
-- The kinds of the objects that the builders return.
use qubership_monitoring_ope.Prelude.{◌≡◌, ◌∙◌, refl, Option, none, some, arith}
use qubership_monitoring_ope.Prelude.Text.{Bytes}
use qubership_monitoring_ope.Api.{Labels}
use qubership_monitoring_ope.Exec.{Outcome, err, ok, panic}
use qubership_monitoring_ope.Cluster.{Kind, Object}
use qubership_monitoring_ope.Reconciler.Merge.{
  and_then, set_instance_labels, set_named_labels, set_standard_labels, with_labels,
}
use qubership_monitoring_ope.Reconciler.Shapes.{instance_labels_from, standard_labels_from}

-- Every object that the builder returns is of the kind.
pub record OfKind {V : Type 0} (κ : Kind) (o : Outcome (Object V)) : Type 0 where
  pub at : (m : Object V) → o ≡ ok m → m.kind ≡ κ

with_labels-kind :
    {V : Type 0} (n m : Object V) (f : Labels → Labels) (o : Option Labels)
    → with_labels n f o ≡ ok m
    → m.kind ≡ n.kind
unfolding with_labels
with_labels-kind n m f none h = cc
with_labels-kind n m f (some ls) h = ground arith

pub standard_labels_from-OfKind :
    {V : Type 0} (κ : Kind) (o : Outcome (Object V)) (image : Option Bytes)
    → OfKind κ o
    → OfKind κ (and_then o (standard_labels_from image))
unfolding and_then standard_labels_from set_standard_labels
standard_labels_from-OfKind κ (ok n) none of_kind = record { at = λ m h. cc }
standard_labels_from-OfKind κ (ok n) (some image) of_kind = record {
  at = λ m h. with_labels-kind n m _ n.labels h ∙ of_kind.at n refl;
}
standard_labels_from-OfKind κ (err e) image of_kind = record { at = λ m h. cc }
standard_labels_from-OfKind κ panic image of_kind = record { at = λ m h. cc }

pub instance_labels_from-OfKind :
    {V : Type 0} (κ : Kind) (o : Outcome (Object V)) (image : Option Bytes)
    → OfKind κ o
    → OfKind κ (and_then o (instance_labels_from image))
unfolding and_then instance_labels_from set_instance_labels
instance_labels_from-OfKind κ (ok n) none of_kind = record { at = λ m h. cc }
instance_labels_from-OfKind κ (ok n) (some image) of_kind = record {
  at = λ m h. with_labels-kind n m _ n.labels h ∙ of_kind.at n refl;
}
instance_labels_from-OfKind κ (err e) image of_kind = record { at = λ m h. cc }
instance_labels_from-OfKind κ panic image of_kind = record { at = λ m h. cc }

pub set_named_labels-OfKind :
    {V : Type 0} (κ : Kind) (o : Outcome (Object V))
    → OfKind κ o
    → OfKind κ (and_then o set_named_labels)
unfolding and_then set_named_labels
set_named_labels-OfKind κ (ok n) of_kind = record {
  at = λ m h. with_labels-kind n m _ n.labels h ∙ of_kind.at n refl;
}
set_named_labels-OfKind κ (err e) of_kind = record { at = λ m h. cc }
set_named_labels-OfKind κ panic of_kind = record { at = λ m h. cc }
