-- ===== src/AccessControl.antt =====
-- pkg/accesscontrol: who may do what. `Access` and `AccessSet` hold grants, `PolicyRules` derives
-- them from the RBAC objects of the cluster.
pub mod Access
pub mod AccessSet
pub mod ByVerb
pub mod Revisions
pub mod PolicyRules
pub mod Store
