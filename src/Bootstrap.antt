-- ===== src/Bootstrap.antt =====
-- bootstrap: the lifecycle, the adapter registry and the application container. Hooks and modules are
-- callbacks of the program: they change a program state `W` and return nil or an error. Contexts,
-- signals and the shutdown deadline are not modelled, since the code only passes them on.
pub mod Lifecycle
pub mod Registry
pub mod App
