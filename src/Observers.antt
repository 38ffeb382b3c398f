-- ===== src/Observers.antt =====
-- krake/krake/controller/kubernetes/hooks.py: what the observers make of the answers of a cluster,
-- the state of a cluster from the conditions of its nodes and the state and the counts of pods of
-- an application from its resources. The texts of a condition are compared in lower case.
pub mod Clusters
pub mod Containers
mod Examples
