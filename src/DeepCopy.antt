-- ===== src/DeepCopy.antt =====
-- api/v1alpha1/zz_generated.deepcopy.go: the copies that the API machinery takes of the custom
-- resources, over an explicit heap. A struct is a record whose maps, slices and pointers are
-- addresses; nil is `none`. What a loop writes to a map or slice that was just made is allocated at
-- once, since nothing else sees it meanwhile, and the struct that a `DeepCopy` makes with `new` is
-- returned by value. Of TypeMeta, ObjectMeta, ListMeta and Condition the model has value fields,
-- which their `DeepCopyInto` copies as they are.
pub mod Heap
pub mod Copies
pub mod Functions
pub mod Copier
pub mod Shape
pub mod Maps
pub mod Kinds
pub mod Lists
mod Tests
